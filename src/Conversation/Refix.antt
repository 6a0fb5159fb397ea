-- ===== src/Conversation/Refix.antt =====
-- When `FixedContextSuffix` succeeds, and what it does with a context that it selected before, as
-- loadFixedReplyContext of internal/postgres/conversation_reply.go has it.
use carry.Prelude.{
  ℕ, suc, ◌+◌, ◌≤◌, true, List, [], ◌∷◌, ◌++◌, reverse, ◌≡◌, inl, inr, refl, ap, ◌∙◌, arith, ltb,
  leb, length, All, Bool-cases, append-nil, length-reverse, All-reverse, reverse-reverse,
  reverse-cons,
}
use carry.Result.{ok, ◌>>=◌}
use carry.Conversation.Context.{
  ContextMessage, max_context_messages, max_context_text_bytes, fits_context, take_newest,
  fixed_context_suffix, nonempty,
}
use carry.Conversation.Suffix.{text_total, fixed_context_suffix-Newest, shift}

text_total-append :
    (xs ys : List ContextMessage) → text_total (xs ++ ys) ≡ text_total xs + text_total ys
text_total-append [] ys = omega arith
text_total-append (m ∷ ms) ys = omega (arith, text_total-append ms ys)

text_total-reverse : (xs : List ContextMessage) → text_total (reverse xs) ≡ text_total xs
text_total-reverse [] = refl
text_total-reverse (m ∷ ms) =
    ap text_total (reverse-cons m ms)
    ∙ omega (arith, text_total-append (reverse ms) (m ∷ []), text_total-reverse ms)

-- Where there is room for all messages, all of them are taken.
take_newest_whole :
    (newest_first fixed : List ContextMessage) (taken text_bytes : ℕ)
    → taken + length newest_first ≤ max_context_messages
    → text_bytes + text_total newest_first ≤ max_context_text_bytes
    → All (λ m. fits_context m ≡ true) newest_first
    → take_newest taken text_bytes fixed newest_first ≡ ok (reverse newest_first ++ fixed)
unfolding take_newest
take_newest_whole [] fixed taken text_bytes few small usable = refl
take_newest_whole (m ∷ older) fixed taken text_bytes few small (f, usable) =
    let rest =
      take_newest_whole older (m ∷ fixed) (suc taken) (text_bytes + length m.text) (omega arith)
        (omega arith) usable in
    ground (arith, rest, f, shift m older fixed)

nonempty_lem : (ms : List ContextMessage) → 1 ≤ length ms → nonempty ms ≡ ok ms
nonempty_lem [] h = absurd (omega arith)
nonempty_lem (m ∷ ms) h = refl

-- A context that was selected is selected again from itself, unchanged.
pub fixed_context_suffix_idem :
    (messages : List ContextMessage) {fixed : List ContextMessage}
    → fixed_context_suffix messages ≡ ok fixed
    → fixed_context_suffix fixed ≡ ok fixed
unfolding fixed_context_suffix
fixed_context_suffix_idem messages {fixed} h =
    let v = fixed_context_suffix-Newest messages h in
    let w = v.within in
    let taken =
      take_newest_whole (reverse fixed) [] 0 0 (omega (arith, w.few, length-reverse fixed))
        (omega (arith, w.small, text_total-reverse fixed))
        (All-reverse (λ m. fits_context m ≡ true) fixed w.usable) in
    ap (λ r. r >>= nonempty)
      (taken ∙ ap ok (append-nil (reverse (reverse fixed)) ∙ reverse-reverse fixed))
    ∙ nonempty_lem fixed v.nonempty

-- The loop does not fail on usable messages, and keeps what it has.
take_newest-usable :
    (newest_first fixed : List ContextMessage) (taken text_bytes : ℕ)
    → All (λ m. fits_context m ≡ true) newest_first
    → (out : List ContextMessage) × (take_newest taken text_bytes fixed newest_first ≡ ok out)
      × (length fixed ≤ length out)
unfolding take_newest
take_newest-usable [] fixed taken text_bytes usable = (fixed, refl, omega arith)
take_newest-usable (m ∷ older) fixed taken text_bytes (f, usable) =
    let (out, e, l) =
      take_newest-usable older (m ∷ fixed) (suc taken) (text_bytes + length m.text) usable in
    elim (Bool-cases (leb max_context_messages taken)) [
      | inl g ↦ (fixed, ground arith, omega arith)
      | inr g ↦ elim (Bool-cases (ltb max_context_text_bytes (text_bytes + length m.text))) [
        | inl b ↦ (fixed, ground arith, omega arith)
        | inr b ↦ (out, ground arith, omega arith)
      ]
    ]

first_fits :
    (newest_first : List ContextMessage)
    → 1 ≤ length newest_first
    → All (λ m. fits_context m ≡ true) newest_first
    → (out : List ContextMessage) × (take_newest 0 0 [] newest_first ≡ ok out) × (1 ≤ length out)
unfolding take_newest
first_fits [] some_left usable = absurd (omega arith)
first_fits (m ∷ older) some_left (f, usable) =
    let (out, e, l) = take_newest-usable older (m ∷ []) 1 (length m.text) usable in
    (out, ground arith, omega arith)

-- A context is selected from any messages, at least one, that all have a known author and a valid
-- text of at most 16 KiB that is not empty.
pub fixed_context_suffix-total :
    (messages : List ContextMessage)
    → 1 ≤ length messages
    → All (λ m. fits_context m ≡ true) messages
    → (fixed : List ContextMessage) × (fixed_context_suffix messages ≡ ok fixed)
unfolding fixed_context_suffix
fixed_context_suffix-total messages some_left usable =
    let (out, e, l) =
      first_fits (reverse messages) (omega (arith, length-reverse messages))
        (All-reverse (λ m. fits_context m ≡ true) messages usable) in
    (out, ap (λ r. r >>= nonempty) e ∙ nonempty_lem out l)
