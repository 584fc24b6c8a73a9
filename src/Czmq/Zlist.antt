-- ===== src/Czmq/Zlist.antt =====
-- The lists of libczmq (zlist), which hold the Ruby references of a message's frames, the sockets
-- of a context and so on, as a parameter. A reference is a number, and 0 is `NULL`.
use rbczmq.Base.{
  ℕ, ◌≡◌, refl, Option, none, some, List, [], ◌∷◌, ◌++◌, length, last_or, head_or, tail,
  erase_first,
}

pub record Zlist : Type 1 where
  pub L : Type 0
  pub zlist_new : L
  pub zlist_push : ℕ → L → L
  pub zlist_append : ℕ → L → L
  pub zlist_pop : L → ℕ × L
  pub zlist_remove : ℕ → L → L
  pub zlist_size : L → ℕ
  pub zlist_first : L → ℕ × L
  pub zlist_next : L → ℕ × L
  pub zlist_last : L → ℕ × L

-- What is ahead of a cursor on the first item; there is no such cursor of the empty list.
abbrev pub from_first : List ℕ → Option (List ℕ)
from_first [] = none
from_first (x ∷ xs) = some xs

-- The documented behaviour: the items in order, and those that `zlist_next` has yet to return, where
-- `none` is for a cursor that has left the list. What `zlist_next` returns then is not documented,
-- but for the items that it depends on.
pub record ListLaws (z : Zlist) : Type 0 where
  pub items : z.L → List ℕ
  pub ahead : z.L → Option (List ℕ)
  pub after_end : List ℕ → ℕ
  pub items-new : items z.zlist_new ≡ []
  pub items-push : (x : ℕ) (l : z.L) → items (z.zlist_push x l) ≡ x ∷ items l
  pub items-append : (x : ℕ) (l : z.L) → items (z.zlist_append x l) ≡ items l ++ x ∷ []
  pub pop_value : (l : z.L) → (z.zlist_pop l).0 ≡ head_or 0 (items l)
  pub items-pop : (l : z.L) → items (z.zlist_pop l).1 ≡ tail (items l)
  pub items-remove : (x : ℕ) (l : z.L) → items (z.zlist_remove x l) ≡ erase_first x (items l)
  pub size_value : (l : z.L) → z.zlist_size l ≡ length (items l)
  pub first_value : (l : z.L) → (z.zlist_first l).0 ≡ head_or 0 (items l)
  pub items-first : (l : z.L) → items (z.zlist_first l).1 ≡ items l
  pub ahead-first : (l : z.L) → ahead (z.zlist_first l).1 ≡ from_first (items l)
  pub next_value : (l : z.L) (us : List ℕ) → ahead l ≡ some us → (z.zlist_next l).0 ≡ head_or 0 us
  pub next_beyond : (l : z.L) → ahead l ≡ none → (z.zlist_next l).0 ≡ after_end (items l)
  pub items-next : (l : z.L) → items (z.zlist_next l).1 ≡ items l
  pub ahead-next :
      (l : z.L) (us : List ℕ) → ahead l ≡ some us → ahead (z.zlist_next l).1 ≡ from_first us
  pub last_value : (l : z.L) → (z.zlist_last l).0 ≡ last_or 0 (items l)
  pub items-last : (l : z.L) → items (z.zlist_last l).1 ≡ items l

-- A list with its cursor, which satisfies the laws: off the list, the next item is the first.
pub record Cursor : Type 0 where
  pub all : List ℕ
  pub rest : Option (List ℕ)

abbrev pub next_item : List ℕ → Option (List ℕ) → ℕ
next_item all none = head_or 0 all
next_item all (some us) = head_or 0 us

abbrev pub next_rest : List ℕ → Option (List ℕ) → Option (List ℕ)
next_rest all none = from_first all
next_rest all (some us) = from_first us

abbrev pub ideal_zlist : Zlist
ideal_zlist = record {
  L = Cursor;
  zlist_new = record { all = []; rest = none };
  zlist_push = λ x l. record { all = x ∷ l.all; rest = none };
  zlist_append = λ x l. record { all = l.all ++ x ∷ []; rest = none };
  zlist_pop = λ l. (head_or 0 l.all, record { all = tail l.all; rest = none });
  zlist_remove = λ x l. record { all = erase_first x l.all; rest = none };
  zlist_size = λ l. length l.all;
  zlist_first = λ l. (head_or 0 l.all, record { all = l.all; rest = from_first l.all });
  zlist_next = λ l. (next_item l.all l.rest, record { all = l.all; rest = next_rest l.all l.rest });
  zlist_last = λ l. (last_or 0 l.all, record { all = l.all; rest = some [] });
}

abbrev pub ideal_lists : ListLaws ideal_zlist
ideal_lists = record {
  items = λ l. l.all;
  ahead = λ l. l.rest;
  after_end = head_or 0;
  items-new = refl;
  items-push = λ x l. refl;
  items-append = λ x l. refl;
  pop_value = λ l. refl;
  items-pop = λ l. refl;
  items-remove = λ x l. refl;
  size_value = λ l. refl;
  first_value = λ l. refl;
  items-first = λ l. refl;
  ahead-first = λ l. refl;
  next_value = λ l us e. rw e refl;
  next_beyond = λ l e. rw e refl;
  items-next = λ l. refl;
  ahead-next = λ l us e. rw e refl;
  last_value = λ l. refl;
  items-last = λ l. refl;
}
