-- ===== src/Conversation/Message.antt =====
-- Texts of private messages and the output of an agent, with what its digest is made of.
use carry.Prelude.{
  ℕ, ◌*◌, ◌^◌, ◌<◌, List, [], ◌∷◌, not, ◌&&◌, Option, none, some, ◌≡◌, refl, sym, subst, inl, inr,
  Option-cases, arith, length, All,
}
use carry.Result.{Result, ok, ◌>>=◌, fail_if, >>=-eq-ok, >>=-ok, invalid_text, invalid_cursor}
use carry.Text.{Text, codes, is_empty}
use carry.Digest.{encode_fields, encode_fields-injective}
use carry.Work.{
  bounded, normalize_goal, IsNormal, bounded-IsNormal, bounded_self, normalize_goal-IsNormal,
}

abbrev pub max_text_bytes : ℕ
max_text_bytes = 16 * 1024

-- `NormalizeText`.
unfoldable pub normalize_text : Text → Result Text
normalize_text = bounded max_text_bytes invalid_text

-- `ValidateCursors`.
unfoldable pub validate_cursors : Text → Text → Result (Unit {0})
validate_cursors before after =
    fail_if (not (is_empty before) && not (is_empty after)) invalid_cursor

-- `ReplyCandidate`.
pub record ReplyCandidate : Type 0 where
  pub reply : Text
  pub delegation_goal : Option Text

-- The fields of the digest: a marker tells a missing goal from any goal.
abbrev pub reply_fields : Text → ReplyCandidate → List Text
reply_fields source c = source ∷ c.reply ∷ elim c.delegation_goal [
  | none ↦ codes "delegation:null" ∷ []
  | some goal ↦ codes "delegation:goal" ∷ goal ∷ []
]

abbrev normalize_delegation : Option Text → Result (Option Text)
normalize_delegation none = ok none
normalize_delegation (some value) = normalize_goal value >>= λ goal. ok (some goal)

-- `NormalizeReplyCandidate`.
unfoldable pub normalize_reply_candidate :
    (Text → Text) → Text → ReplyCandidate → Result (ReplyCandidate × Text)
normalize_reply_candidate sha256 source c = do
  reply ← normalize_text c.reply
  goal ← normalize_delegation c.delegation_goal
  let normalized : ReplyCandidate = record { reply = reply; delegation_goal = goal }
  ok (normalized, sha256 (encode_fields (reply_fields source normalized)))

normalize_delegation_idem :
    (g : Option Text) {goal : Option Text}
    → normalize_delegation g ≡ ok goal
    → normalize_delegation goal ≡ ok goal
normalize_delegation_idem none {goal} h = ground arith
normalize_delegation_idem (some value) {goal} h =
    let (n, e, f) = >>=-eq-ok (normalize_goal value) _ h in
    let same : goal ≡ some n = ground arith in
    subst (λ o. normalize_delegation o ≡ ok o) (sym same)
      (>>=-ok (normalize_goal n) _
        ((normalize_goal-IsNormal n).0.0 ((normalize_goal-IsNormal n).1 value e)) refl)

-- What an agent puts out is normalized once: the normal form of a candidate is accepted unchanged,
-- with the same digest.
pub normalize_reply_candidate_idem :
    (sha256 : Text → Text) (source : Text) (c : ReplyCandidate) {n : ReplyCandidate} {digest : Text}
    → normalize_reply_candidate sha256 source c ≡ ok (n, digest)
    → IsNormal max_text_bytes n.reply × (normalize_reply_candidate sha256 source n ≡ ok (n, digest))
unfolding normalize_reply_candidate normalize_text
normalize_reply_candidate_idem sha256 source c {n} {digest} h =
    let (reply, e1, h1) = >>=-eq-ok (normalize_text c.reply) _ h in
    let (goal, e2, h2) = >>=-eq-ok (normalize_delegation c.delegation_goal) _ h1 in
    let v = bounded-IsNormal max_text_bytes invalid_text c.reply e1 in
    let same_reply : n.reply ≡ reply = ground arith in
    let same_goal : n.delegation_goal ≡ goal = ground arith in
    let again1 : normalize_text n.reply ≡ ok n.reply =
      subst (λ t. normalize_text t ≡ ok t) (sym same_reply)
        (bounded_self max_text_bytes invalid_text reply v) in
    let again2 : normalize_delegation n.delegation_goal ≡ ok n.delegation_goal =
      subst (λ o. normalize_delegation o ≡ ok o) (sym same_goal)
        (normalize_delegation_idem c.delegation_goal e2) in
    (
      subst (IsNormal max_text_bytes) (sym same_reply) v,
      >>=-ok (normalize_text n.reply) _ again1
          (>>=-ok (normalize_delegation n.delegation_goal) _ again2 (ground arith)),
    )

reply_fields-injective :
    (s t : Text) (a b : ReplyCandidate)
    → reply_fields s a ≡ reply_fields t b
    → (s ≡ t) × (a.reply ≡ b.reply) × (a.delegation_goal ≡ b.delegation_goal)
reply_fields-injective s t a b h = elim (Option-cases a.delegation_goal) [
  | inl e ↦ elim (Option-cases b.delegation_goal) [
    | inl f ↦ ground arith
    | inr (g, f) ↦ absurd (ground arith)
  ]
  | inr (k, e) ↦ elim (Option-cases b.delegation_goal) [
    | inl f ↦ absurd (ground arith)
    | inr (g, f) ↦ ground arith
  ]
]

-- What is hashed for a reply tells its source, its text and its goal, also whether it has a goal,
-- if each field is shorter than 2^64 bytes.
pub encode_fields-reply :
    (s t : Text) (a b : ReplyCandidate)
    → All (λ f. length f < 2 ^ 64) (reply_fields s a)
    → All (λ f. length f < 2 ^ 64) (reply_fields t b)
    → encode_fields (reply_fields s a) ≡ encode_fields (reply_fields t b)
    → (s ≡ t) × (a.reply ≡ b.reply) × (a.delegation_goal ≡ b.delegation_goal)
encode_fields-reply s t a b ha hb e =
    reply_fields-injective s t a b (encode_fields-injective _ _ ha hb e)
