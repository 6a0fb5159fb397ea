-- ===== src/Conversation/Shown.antt =====
-- What a page holds of the messages that ListConversationMessages of internal/postgres/conversation.go
-- selects.
use carry.Prelude.{
  count, count-take, count-select, count-reverse, count-sort_by, ℕ, ◌≤◌, Bool, true, List, [], ◌∷◌,
  ◌≡◌, ◌⊎◌, ◌∙◌, inl, inr, arith, length, length-reverse, take, reverse, select, sort_by, All,
  All-reverse, Pairwise, Pairwise-take, Pairwise-reverse, sort_by-Pairwise, Memᴰ, mem-take,
  mem-reverse, mem-unreverse, mem-sort_by, mem-unsort_by, take-rest, select-mem, select-has, zero,
  suc,
}
use carry.Conversation.Tables.{Chat, Post}
use carry.Conversation.Posts.{post_seq, last_page}

-- A page of the messages that `within` describes: at most 50 of them, by ascending number, none more
-- often than in the table; one that is left out stands on the far side of a page that is full.
pub record Page (within : Post → Type 0) (beyond : Post → Post → Type 0) (d : Chat) (ps : List Post)
    : Type 0 where
  pub few : length ps ≤ 50
  pub ascending : Pairwise (λ a b. a.message_seq ≤ b.message_seq) ps
  pub shown : (p : Post) → Memᴰ p ps → Memᴰ p d.posts × within p
  pub once : (q : Post → Bool) → count q ps ≤ count q d.posts
  pub whole :
      (p : Post) → Memᴰ p d.posts → within p → Memᴰ p ps ⊎ ((length ps ≡ 50) × All (beyond p) ps)

-- The left out messages are older than all on the page, or newer.
abbrev pub Older : Post → Post → Type 0
Older p q = p.message_seq ≤ q.message_seq

abbrev pub Newer : Post → Post → Type 0
Newer p q = q.message_seq ≤ p.message_seq

length-take : {A : Type 0} (n : ℕ) (xs : List A) → length (take n xs) ≤ n
length-take zero xs = omega arith
length-take (suc n) [] = omega arith
length-take (suc n) (x ∷ xs) = omega (arith, length-take n xs)

module _ (p : Post → Bool) (within : Post → Type 0) (to : (x : Post) → p x ≡ true → within x)
    (from : (x : Post) → within x → p x ≡ true) (d : Chat) where
  abbrev rows : List Post
  rows = sort_by post_seq (select p d.posts)

  row-shown : (x : Post) → Memᴰ x rows → Memᴰ x d.posts × within x
  row-shown x m =
      let (k, e) = select-mem p d.posts (mem-unsort_by post_seq (select p d.posts) m) in (k, to x e)

  row_has : (x : Post) → Memᴰ x d.posts → within x → Memᴰ x rows
  row_has x m w = mem-sort_by post_seq (select p d.posts) (select-has p d.posts m (from x w))

  row_once : (q : Post → Bool) → count q rows ≤ count q d.posts
  row_once q = omega (arith, count-sort_by post_seq q (select p d.posts), count-select q p d.posts)

  pub last_page-Page : Page within Older d (last_page (select p d.posts))
  last_page-Page =
      let back = reverse rows in
      let kept = take 50 back in
      let order =
        Pairwise-reverse (λ a b. post_seq a ≤ post_seq b) rows
          (sort_by-Pairwise post_seq (select p d.posts)) in
      record {
        few = omega (arith, length-reverse kept, length-take 50 back);
        ascending =
            Pairwise-reverse (λ a b. post_seq b ≤ post_seq a) kept
              (Pairwise-take (λ a b. post_seq b ≤ post_seq a) 50 back order);
        shown = λ x m. row-shown x (mem-unreverse rows (mem-take 50 back (mem-unreverse kept m)));
        once = λ q.
            omega
              (arith, count-reverse q kept, count-take q 50 back, count-reverse q rows, row_once q);
        whole = λ x m w.
            elim (take-rest (λ a b. post_seq b ≤ post_seq a) 50 back order
              (mem-reverse rows (row_has x m w))) [
                | inl k ↦ inl (mem-reverse kept k)
                | inr (l, a) ↦ inr (length-reverse kept ∙ l, All-reverse (Older x) kept a)
              ];
      }

  pub opening-Page : Page within Newer d (take 50 rows)
  opening-Page =
      let order = sort_by-Pairwise post_seq (select p d.posts) in
      record {
        few = length-take 50 rows;
        ascending = Pairwise-take (λ a b. post_seq a ≤ post_seq b) 50 rows order;
        shown = λ x m. row-shown x (mem-take 50 rows m);
        once = λ q. omega (arith, count-take q 50 rows, row_once q);
        whole = λ x m w. take-rest (λ a b. post_seq a ≤ post_seq b) 50 rows order (row_has x m w);
      }
