-- ===== src/Map/Dense/Links.antt =====
-- The iterator list of `DenseMapObj`: the entries in the order of their insertion, as a list that is
-- linked in both directions by the `prev` and `next` fields of the items. A node is its slot's index.
pub mod Segments
pub mod Parts
pub mod Order
pub mod Iterate
use mathlib.Core.Option
use litetvm_ffi.Prelude.{
  ℕ, suc, ◌-◌, ◌^◌, ◌==◌, if◌then◌else◌, not, Option, none, some, List, [], ◌∷◌, zero,
}

-- `iter_list_head_` and `iter_list_tail_`, and the fields of the items.
pub record Links : Type 0 where
  pub head : ℕ
  pub tail : ℕ
  pub prev : ℕ → ℕ
  pub next : ℕ → ℕ

abbrev pub k_invalid_index : ℕ
k_invalid_index = 2 ^ 64 - 1

-- A field of one item is written.
abbrev pub store {ℓ} : {A : Type ℓ} → ℕ → A → (ℕ → A) → ℕ → A
store i a f j = if i == j then a else f j

-- The list's head, or the next field of a node that is there, becomes `n`.
unfoldable pub link_next : ℕ → ℕ → Links → Links
link_next p n l =
    if p == k_invalid_index then record l { head = n } else record l { next = store p n l.next }

-- The list's tail, or the prev field of a node that is there, becomes `p`.
unfoldable pub link_prev : ℕ → ℕ → Links → Links
link_prev n p l =
    if n == k_invalid_index then record l { tail = p } else record l { prev = store n p l.prev }

-- `IterListUnlink`
unfoldable pub iter_list_unlink : ℕ → Links → Links
unfolding link_next link_prev
iter_list_unlink node l =
    let first = link_next (l.prev node) (l.next node) l in
    link_prev (first.next node) (first.prev node) first

-- `IterListPushBack`
unfoldable pub iter_list_push_back : ℕ → Links → Links
iter_list_push_back node l =
    let item = record l {
      prev = store node l.tail l.prev;
      next = store node k_invalid_index l.next;
    } in
    let linked =
      if not (item.tail == k_invalid_index)
      then record item { next = store item.tail node item.next }
      else item in
    let headed = if linked.head == k_invalid_index then record linked { head = node } else linked in
    record headed { tail = node }

-- `IterListReplaceNodeBy`
unfoldable pub iter_list_replace_node_by : ℕ → ℕ → Links → Links
unfolding link_next link_prev
iter_list_replace_node_by src dst l =
    let prev_set = record l { prev = store dst (l.prev src) l.prev } in
    let item = record prev_set { next = store dst (prev_set.next src) prev_set.next } in
    let first = link_next (item.prev dst) dst item in link_prev (first.next dst) dst first

-- `IncItr` and `DecItr` of the dense layout
unfoldable pub inc_itr : ℕ → Links → ℕ
inc_itr index l = if index == k_invalid_index then index else l.next index

unfoldable pub dec_itr : ℕ → Links → ℕ
dec_itr index l = if index == k_invalid_index then l.tail else l.prev index

-- `for (it = begin(); it != end(); ++it)`: the indices that the iterator has.
unfoldable pub iterate : ℕ → ℕ → Links → Option (List ℕ)
unfolding inc_itr
iterate zero index l = if index == k_invalid_index then some [] else none
iterate (suc fuel) index l =
    let further = iterate fuel (inc_itr index l) l in
    if index == k_invalid_index then some [] else Option.map (λ is. index ∷ is) further
