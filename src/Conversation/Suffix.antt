-- ===== src/Conversation/Suffix.antt =====
-- What `FixedContextSuffix` of internal/conversation/conversation.go selects.
use carry.Prelude.{
  ℕ, suc, ◌+◌, ◌≤◌, ◌<◌, true, List, [], ◌∷◌, ◌++◌, reverse, ◌≡◌, ◌⊎◌, inl, inr, refl, sym, ap,
  subst, ◌∙◌, arith, ltb, leb, length, All, Bool-cases, append_assoc, reverse-cons, reverse-reverse,
  append-nil,
}
use carry.Result.{ok, >>=-eq-ok}
use carry.Conversation.Context.{
  ContextMessage, nonempty, max_context_messages, max_context_text_bytes, fits_context, take_newest,
  fixed_context_suffix,
}

abbrev pub text_total : List ContextMessage → ℕ
text_total [] = 0
text_total (m ∷ ms) = length m.text + text_total ms

-- Within both limits, every message usable.
pub record Within (fixed : List ContextMessage) : Type 0 where
  pub few : length fixed ≤ max_context_messages
  pub small : text_total fixed ≤ max_context_text_bytes
  pub usable : All (λ m. fits_context m ≡ true) fixed

-- The next older message does not fit any more.
abbrev pub Full : List ContextMessage → List ContextMessage → Type 0
Full [] fixed = Unit
Full (m ∷ older) fixed =
    (length fixed ≡ max_context_messages)
    ⊎ (max_context_text_bytes < text_total fixed + length m.text)

-- The rest of the messages, with the newest of them first, and the selected ones.
pub record Selects (newest_first fixed out : List ContextMessage) : Type 0 where
  pub left : List ContextMessage
  pub split : reverse left ++ out ≡ reverse newest_first ++ fixed
  pub within : Within out
  pub full : Full left out

pub shift :
    (m : ContextMessage) (older fixed : List ContextMessage)
    → reverse older ++ (m ∷ fixed) ≡ reverse (m ∷ older) ++ fixed
shift m older fixed =
    append_assoc' (reverse older) (m ∷ []) fixed ∙ ap (λ l. l ++ fixed) (sym (reverse-cons m older))
  where
    append_assoc' : (xs ys zs : List ContextMessage) → xs ++ (ys ++ zs) ≡ (xs ++ ys) ++ zs
    append_assoc' xs ys zs = sym (append_assoc xs ys zs)

take_newest-Selects :
    (newest_first fixed : List ContextMessage) (taken text_bytes : ℕ) {out : List ContextMessage}
    → taken ≡ length fixed
    → text_bytes ≡ text_total fixed
    → Within fixed
    → take_newest taken text_bytes fixed newest_first ≡ ok out
    → Selects newest_first fixed out
unfolding take_newest
take_newest-Selects [] fixed taken text_bytes {out} et eb v h =
    subst (Selects [] fixed) (ground arith)
      (record { left = []; split = refl; within = v; full = tt })
take_newest-Selects (m ∷ older) fixed taken text_bytes {out} et eb v h =
    elim (Bool-cases (leb max_context_messages taken)) [
      | inl e ↦ subst (Selects (m ∷ older) fixed) (ground arith) (record {
        left = m ∷ older;
        split = refl;
        within = v;
        full = inl (ground (arith, v.few));
      })
      | inr e ↦ elim (Bool-cases (fits_context m)) [
        | inr f ↦ absurd (ground arith)
        | inl f ↦ elim (Bool-cases (ltb max_context_text_bytes (text_bytes + length m.text))) [
          | inl g ↦
              subst (Selects (m ∷ older) fixed) (ground arith)
                (record { left = m ∷ older; split = refl; within = v; full = inr (ground arith) })
          | inr g ↦
              let grown : Within (m ∷ fixed) = record {
                few = ground arith;
                small = ground arith;
                usable = (f, v.usable);
              } in
              let s =
                take_newest-Selects older (m ∷ fixed) (suc taken) (text_bytes + length m.text)
                  {out = out} (omega arith) (omega arith) grown (ground arith) in
              record {
                left = s.left;
                split = s.split ∙ shift m older fixed;
                within = s.within;
                full = s.full;
              }
        ]
      ]
    ]

-- The newest messages: a suffix of all of them.
pub record Newest (messages fixed : List ContextMessage) : Type 0 where
  pub older : List ContextMessage
  pub split : reverse older ++ fixed ≡ messages
  pub nonempty : 1 ≤ length fixed
  pub within : Within fixed
  pub full : Full older fixed

-- A context that is selected is a suffix of the messages, not empty, of at most 32 messages and 256
-- KiB, each of a known author with a valid text; and it cannot be longer: it is all there is, or it
-- has 32 messages, or the next older message goes beyond 256 KiB.
pub fixed_context_suffix-Newest :
    (messages : List ContextMessage) {fixed : List ContextMessage}
    → fixed_context_suffix messages ≡ ok fixed
    → Newest messages fixed
unfolding fixed_context_suffix
fixed_context_suffix-Newest messages {fixed} h =
    let (out, e, f) = >>=-eq-ok (take_newest 0 0 [] (reverse messages)) _ h in
    let (same, some_left) = nonempty_sound out f in
    let empty : Within [] = record { few = omega arith; small = omega arith; usable = tt } in
    let s = take_newest-Selects (reverse messages) [] 0 0 refl refl empty e in
    subst (Newest messages) same (record {
      older = s.left;
      split = s.split ∙ append-nil (reverse (reverse messages)) ∙ reverse-reverse messages;
      nonempty = some_left;
      within = s.within;
      full = s.full;
    })
  where
    nonempty_sound :
        (out : List ContextMessage) → nonempty out ≡ ok fixed → (out ≡ fixed) × (1 ≤ length out)
    nonempty_sound [] g = cc
    nonempty_sound (m ∷ ms) g = (ground arith, omega arith)
