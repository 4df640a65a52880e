-- ===== src/Auth/Rules.antt =====
-- Results that are exceptions, and the steps of a verification one by one.
use energy_flex_trust_platfo.Prelude.{
  String, ◌≡◌, ◌⊎◌, inl, inr, refl, ap, Bool, true, false, Option, none, some, [], ◌∷◌, ◌==◌,
  ==_iff, is_blank, Bool-cases, arith, if◌then◌else◌,
}
use energy_flex_trust_platfo.Domain.{Error, Result, ok, err}
use energy_flex_trust_platfo.Json.{Json, null, str, obj, Items, nil, cons, Fields}
use energy_flex_trust_platfo.Auth.{
  Called, answered, get_field, Keys, find_key, ◌>>=◌, check, non_empty_text, index_key, index_keys,
  document_keys, allowed_algorithm, algorithm_matches, subject_text, trusted, attempt,
}

module _ {A : Type 0} (Q : A → Type 0) where
  unfoldable pub IfOk : Result A → Type 0
  IfOk (ok a) = Q a
  IfOk (err e) = Unit

  pub IfOk-elim : (r : Result A) (a : A) → IfOk r → r ≡ ok a → Q a
  unfolding IfOk
  IfOk-elim r a h e = rw e at h

  pub IfOk-intro : (r : Result A) → ((a : A) → r ≡ ok a → Q a) → IfOk r
  unfolding IfOk
  IfOk-intro (ok a) h = h a refl
  IfOk-intro (err e) h = tt

  pub IfOk-ok : (a : A) → Q a → IfOk (ok a)
  unfolding IfOk
  IfOk-ok a h = h

module _ {A B : Type 0} (Q : B → Type 0) where
  pub IfOk-bind :
      (r : Result A) (k : A → Result B) → ((a : A) → r ≡ ok a → IfOk Q (k a)) → IfOk Q (r >>= k)
  unfolding ◌>>=◌ IfOk
  IfOk-bind (ok a) k h = h a refl
  IfOk-bind (err e) k h = tt

-- Each key stands under its own key identifier.
unfoldable pub IsIndexed : Keys → Type 0
IsIndexed keys =
    (kid : String) (key : Fields) → find_key kid keys ≡ some key → get_field "kid" key ≡ str kid

pub non_empty_text-str : (j : Json) (s : String) → non_empty_text j ≡ ok s → j ≡ str s
unfolding non_empty_text
non_empty_text-str j s h = ground arith

pub IsIndexed-added :
    (kid : String) (key : Fields) (keys : Keys)
    → get_field "kid" key ≡ str kid
    → IsIndexed keys
    → IsIndexed ((kid, key) ∷ keys)
unfolding find_key IsIndexed
IsIndexed-added kid key keys own indexed other found h = elim (Bool-cases (kid == other)) [
  | inl same ↦ added_hit same h
  | inr differs ↦ indexed other found (rw differs at h)
]
  where
    added_hit :
        (kid == other) ≡ true
        → (if kid == other then some key else find_key other keys) ≡ some found
        → get_field "kid" found ≡ str other
    added_hit same e = ground (arith, ==_iff kid other)

pub index_key-IsIndexed :
    (indexed : Keys) (item : Json) → IsIndexed indexed → IfOk IsIndexed (index_key indexed item)
unfolding index_key
index_key-IsIndexed indexed item h = IfOk-bind _ _ _ λ key found. IfOk-bind _ _ _ λ kid named.
    IfOk-bind _ _ _
      λ u fresh. IfOk-ok _ _ (IsIndexed-added kid key indexed (non_empty_text-str _ kid named) h)

pub index_keys-IsIndexed :
    (indexed : Keys) (items : Items) → IsIndexed indexed → IfOk IsIndexed (index_keys indexed items)
unfolding index_keys IfOk
index_keys-IsIndexed indexed nil h = h
index_keys-IsIndexed indexed (cons item rest) h =
    IfOk-bind IsIndexed (index_key indexed item) (λ more. index_keys more rest)
      λ more added. index_keys-IsIndexed more rest (
        IfOk-elim IsIndexed (index_key indexed item) more (index_key-IsIndexed indexed item h)
          added)

pub document_keys-IsIndexed : (document : Option Json) → IfOk IsIndexed (document_keys document)
unfolding document_keys find_key IsIndexed IfOk
document_keys-IsIndexed none = tt
document_keys-IsIndexed (some (obj document)) =
    IfOk-bind _ _ _ λ items found. index_keys-IsIndexed [] items λ kid key h. absurd (ground arith)
document_keys-IsIndexed (some j) = tt

pub attempt-answered : {A : Type 0} (r : Called A) (a : A) → attempt r ≡ ok a → r ≡ answered a
attempt-answered r a h = ground arith

pub check-true : (b : Bool) (e : Error) (u : Unit {0}) → check b e ≡ ok u → b ≡ true
check-true b e u h = ground arith

pub trusted-some : (o : Option Fields) (key : Fields) → trusted o ≡ ok key → o ≡ some key
trusted-some o key h = ground arith

pub allowed_algorithm-str :
    (j : Json) (s : String)
    → allowed_algorithm j ≡ ok s
    → (j ≡ str s) × ((s ≡ "RS256") ⊎ (s ≡ "ES256"))
unfolding allowed_algorithm
allowed_algorithm-str j s h = ground (arith, ==_iff s "RS256", ==_iff s "ES256")

pub algorithm_matches-cases :
    (j : Json) (s : String) → algorithm_matches j s ≡ true → (j ≡ null) ⊎ (j ≡ str s)
unfolding algorithm_matches
algorithm_matches-cases null s h = inl refl
algorithm_matches-cases (str t) s h = inr (ap str ((==_iff t s).0 h))
algorithm_matches-cases _ s h = absurd (ground arith)

pub subject_text-str :
    (j : Json) (s : String) → subject_text j ≡ ok s → (j ≡ str s) × (is_blank s ≡ false)
unfolding subject_text
subject_text-str j s h = ground arith
