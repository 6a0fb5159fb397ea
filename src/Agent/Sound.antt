-- ===== src/Agent/Sound.antt =====
-- What `NewVocabulary` guarantees.
use carry.Prelude.{
  ℕ, ◌+◌, ◌≤◌, Bool, true, false, ◌||◌, List, [], ◌∷◌, ◌≡◌, inl, inr, refl, ap, ap₂, map, subst,
  arith, ltb, ◌==◌, length, any, count, count-any, All, Bool-cases,
}
use carry.Result.{Result, ok, fail_if, >>=-eq-ok, fail_if-passed, invalid_vocabulary}
use carry.Text.{Text, text_eq_iff}
use carry.Agent.Keys.{valid_adapter_key, normalize_name}
use carry.Agent.Vocabulary.{
  Descriptor, max_observations_per_report, is_refused, or_invalid, has_key, is_text, add_descriptor,
  add_descriptors, new_vocabulary,
}

abbrev pub occurrences : List Descriptor → ℕ
occurrences [] = 0
occurrences (d ∷ ds) = d.max_occurrences + occurrences ds

-- Keys are valid and stand once, folded names stand once, each family may occur, and all together
-- fit in one report.
pub record IsVocabulary (fold : Text → Text) (v : List Descriptor) (names : List Text)
    : Type 0 where
  pub valid : All (λ d. valid_adapter_key d.key ≡ true) v
  pub keys_once : (key : Text) → count (has_key key) v ≤ 1
  pub names_once : (name : Text) → count (is_text name) names ≤ 1
  pub folded : names ≡ map (λ d. fold d.name_base) v
  pub each_occurs : length v ≤ occurrences v
  pub bounded_report : occurrences v ≤ max_observations_per_report

abbrev State : Type 0
State = List Descriptor × List Text × ℕ

abbrev IsState : (Text → Text) → State → Type 0
IsState fold (v, names, total) = IsVocabulary fold v names × (total ≡ occurrences v)

count-once :
    {A : Type 0} (p q : A → Bool) (x : A) (xs : List A)
    → count p xs ≤ 1
    → any q xs ≡ false
    → (p x ≡ true → q ≡ p)
    → count p (x ∷ xs) ≤ 1
count-once p q x xs one new same = elim (Bool-cases (p x)) [
  | inl e ↦ ground (arith, count-any p xs (subst (λ r. any r xs ≡ false) (same e) new))
  | inr e ↦ ground arith
]

add-IsState :
    (fold : Text → Text) (d : Descriptor) (v : List Descriptor) (names : List Text) (total : ℕ)
    (name : Text)
    → name ≡ fold d.name_base
    → is_refused total d ≡ false
    → any (has_key d.key) v ≡ false
    → any (is_text name) names ≡ false
    → IsState fold (v, names, total)
    → IsState fold (d ∷ v, name ∷ names, total + d.max_occurrences)
add-IsState fold d v names total name en fits new_key new_name (i, et) = (
  record {
    valid = (ground arith, i.valid);
    keys_once = λ key.
        count-once (has_key key) (has_key d.key) d v (i.keys_once key) new_key
          (λ e. ap (λ t. has_key t) ((text_eq_iff d.key key).0 e));
    names_once = λ t.
        count-once (is_text t) (is_text name) name names (i.names_once t) new_name
          (λ e. ap (λ s. is_text s) ((text_eq_iff name t).0 e));
    folded = ap₂ ◌∷◌ en i.folded;
    each_occurs = ground (arith, i.each_occurs);
    bounded_report = ground (arith, i.bounded_report);
  },
  omega (arith, et),
)

name_folded :
    (fold : Text → Text) (base : Text) {name : Text}
    → or_invalid (normalize_name fold base) ≡ ok name
    → name ≡ fold base
unfolding normalize_name
name_folded fold base h = ground arith

add_descriptor-IsState :
    (fold : Text → Text) (d : Descriptor) (s : State) {t : State}
    → add_descriptor fold d s ≡ ok t
    → IsState fold s
    → IsState fold t
unfolding add_descriptor
add_descriptor-IsState fold d (v, names, total) {t} h i =
    let (u1, e1, h1) = >>=-eq-ok (fail_if (is_refused total d) invalid_vocabulary) _ h in
    let (name, e2, h2) = >>=-eq-ok (or_invalid (normalize_name fold d.name_base)) _ h1 in
    let (u3, e3, h3) = >>=-eq-ok (fail_if (any (has_key d.key) v) invalid_vocabulary) _ h2 in
    let (u4, e4, h4) = >>=-eq-ok (fail_if (any (is_text name) names) invalid_vocabulary) _ h3 in
    subst (IsState fold) (ok_eq h4) (
      add-IsState fold d v names total name (name_folded fold d.name_base e2)
        (fail_if-passed (is_refused total d) invalid_vocabulary e1)
        (fail_if-passed (any (has_key d.key) v) invalid_vocabulary e3)
        (fail_if-passed (any (is_text name) names) invalid_vocabulary e4) i)
  where
    ok_eq : {x y : State} → ◌≡◌ {A = Result State} (ok x) (ok y) → x ≡ y
    ok_eq e = cc

add_descriptors-IsState :
    (fold : Text → Text) (ds : List Descriptor) (s : State) {t : State}
    → add_descriptors fold ds s ≡ ok t
    → IsState fold s
    → IsState fold t
unfolding add_descriptors
add_descriptors-IsState fold [] s {t} h i = subst (IsState fold) (ground arith) i
add_descriptors-IsState fold (d ∷ ds) s {t} h i =
    let (next, e, f) = >>=-eq-ok (add_descriptor fold d s) _ h in
    add_descriptors-IsState fold ds next f (add_descriptor-IsState fold d s e i)

abbrev pub Recognizes : (Text → Text) → List Descriptor → Type 0
Recognizes fold v = (names : List Text) × IsVocabulary fold v names

-- A vocabulary that is accepted has valid keys, each of them once, folded names that are different
-- from one another, at least one occurrence of each family, and 32 occurrences at most.
pub new_vocabulary-Recognizes :
    (fold : Text → Text) (descriptors : List Descriptor) {v : List Descriptor}
    → new_vocabulary fold descriptors ≡ ok v
    → Recognizes fold v
unfolding new_vocabulary
new_vocabulary-Recognizes fold descriptors {v} h =
    let empty : IsState fold ([], [], 0) = (
      record {
        valid = tt;
        keys_once = λ key. omega arith;
        names_once = λ t. omega arith;
        folded = refl;
        each_occurs = omega arith;
        bounded_report = omega arith;
      },
      refl,
    ) in
    let wrong = length descriptors == 0 || ltb max_observations_per_report (length descriptors) in
    let (u, e0, h0) = >>=-eq-ok (fail_if wrong invalid_vocabulary) _ h in
    let ((copied, names, total), e, f) =
      >>=-eq-ok (add_descriptors fold descriptors ([], [], 0)) _ h0 in
    let (i, et) = add_descriptors-IsState fold descriptors ([], [], 0) e empty in
    subst (Recognizes fold) (ground arith) (names, i)
