-- ===== src/Conversation/Numbered.antt =====
-- The numbers of the messages of a conversation, `message_head_seq` and `message_seq` of
-- internal/postgres/migrations/0007_private_conversation.sql.
use carry.Prelude.{
  ℕ, ◌+◌, ◌%◌, ◌≤◌, false, List, ◌∷◌, some, ◌≡◌, inl, inr, refl, ap, subst, sym, arith, ◌==◌, find,
  update, count, any, amend, count-any, count-update-le, mem-cases, mem-update, update-mem,
  find-mem, find_sound, Bool-cases, Memᴰ,
}
use carry.Conversation.Tables.{Conversation, Post, conversation_with, post_with, by_member}
use carry.Conversation.Posts.{in_conversation, at_seq}

-- A message is in a conversation, under a number that its head has reached. The member writes the
-- odd numbers, Carry the even ones.
pub record Placed (ks : List Conversation) (p : Post) : Type 0 where
  pub conversation : Conversation
  pub present : Memᴰ conversation ks
  pub same : conversation.conversation_id ≡ p.conversation_id
  pub positive : 1 ≤ p.message_seq
  pub reached : p.message_seq ≤ conversation.message_head_seq
  pub turn : by_member p.author ≡ (p.message_seq % 2 == 1)

pub record Numbered (ks : List Conversation) (ps : List Post) : Type 0 where
  pub conversations_once : (id : ℕ) → count (conversation_with id) ks ≤ 1
  pub posts_once : (id : ℕ) → count (post_with id) ps ≤ 1
  pub seqs_once : (id seq : ℕ) → count (at_seq id seq) ps ≤ 1
  pub full :
      (k : Conversation)
      → Memᴰ k ks
      → count (in_conversation k.conversation_id) ps ≡ k.message_head_seq
  pub placed : (p : Post) → Memᴰ p ps → Placed ks p

abbrev pub bumped : Conversation → Conversation
bumped k = record k { message_head_seq = k.message_head_seq + 1 }

-- The head of one conversation, moved on by one.
abbrev pub bump : ℕ → List Conversation → List Conversation
bump id ks = update (conversation_with id) bumped ks

full-bump :
    (id : ℕ) (ks : List Conversation) (ps : List Post) (p : Post)
    → Numbered ks ps
    → p.conversation_id ≡ id
    → (k : Conversation) → Memᴰ k (bump id ks)
    → count (in_conversation k.conversation_id) (p ∷ ps) ≡ k.message_head_seq
full-bump id ks ps p v same k m =
    let (x, n, e) = mem-update (conversation_with id) bumped ks m in
    let old = v.full x n in
    elim (Bool-cases (conversation_with id x)) [
      | inl i ↦
          let up : k ≡ bumped x = ground arith in
          subst
            (λ (z : Conversation).
              count (in_conversation z.conversation_id) (p ∷ ps) ≡ z.message_head_seq)
            (sym up) (ground (arith, old))
      | inr i ↦
          let up : k ≡ x = ground arith in
          subst
            (λ (z : Conversation).
              count (in_conversation z.conversation_id) (p ∷ ps) ≡ z.message_head_seq)
            (sym up) (ground (arith, old))
    ]

-- A message stays in its place when a head moves on.
pub Placed-bump : (id : ℕ) (ks : List Conversation) (p : Post) → Placed ks p → Placed (bump id ks) p
Placed-bump id ks p v = record {
  conversation = amend (conversation_with id) bumped v.conversation;
  present = update-mem (conversation_with id) bumped ks v.present;
  same = ground (arith, v.same);
  positive = v.positive;
  reached = ground (arith, v.reached);
  turn = v.turn;
}

-- The next message of a conversation, under the next number, by the one whose turn it is.
pub Numbered-speak :
    (ks : List Conversation) (ps : List Post) (k : Conversation) (p : Post)
    → Numbered ks ps
    → find (conversation_with p.conversation_id) ks ≡ some k
    → p.message_seq ≡ k.message_head_seq + 1
    → by_member p.author ≡ (p.message_seq % 2 == 1)
    → any (post_with p.message_id) ps ≡ false
    → any (at_seq p.conversation_id p.message_seq) ps ≡ false
    → Numbered (bump p.conversation_id ks) (p ∷ ps)
Numbered-speak ks ps k p v hk next turn fresh free =
    let id = p.conversation_id in
    let sound = find_sound (conversation_with id) ks hk in
    record {
      conversations_once = λ i. omega (
        arith,
        v.conversations_once i,
        count-update-le (conversation_with i) (conversation_with id) bumped (λ x e h. h) ks,
      );
      posts_once = λ i. ground (
        arith,
        v.posts_once i,
        ap (λ n. count (post_with n) ps) {x = p.message_id} {y = i},
        count-any (post_with p.message_id) ps fresh,
      );
      seqs_once = λ i n. ground (
        arith,
        v.seqs_once i n,
        ap (λ n. count (at_seq i n) ps) {x = p.message_seq} {y = n},
        ap (λ n. count (at_seq n p.message_seq) ps) {x = id} {y = i},
        count-any (at_seq id p.message_seq) ps free,
      );
      full = full-bump id ks ps p v refl;
      placed = λ q m. elim (mem-cases m) [
        | inr n ↦ Placed-bump id ks q (v.placed q n)
        | inl e ↦ subst (Placed (bump id ks)) (sym e) (record {
          conversation = amend (conversation_with id) bumped k;
          present =
              update-mem (conversation_with id) bumped ks (find-mem (conversation_with id) ks hk);
          same = ground arith;
          positive = omega arith;
          reached = ground arith;
          turn = turn;
        })
      ];
    }
