-- ===== src/Map/Dense/Links/Order.antt =====
-- The operations on the iterator list, as operations on the list of its nodes.
use litetvm_ffi.Prelude.{
  ℕ, List, [], ◌∷◌, ◌++◌, false, ◌≡◌, ◌≢◌, refl, sym, ◌∙◌, ◌==◌, All-append, ap,
}
use litetvm_ffi.Map.Dense.Links.{
  Links, k_invalid_index, store, link_next, link_prev, iter_list_unlink, iter_list_push_back,
  iter_list_replace_node_by,
}
use litetvm_ffi.Map.Dense.Links.Segments.{
  first_or, last_or, Absent, Unique, Apart, All-split, All-last, first_or-append, last_or-append,
  Unique-split, Unique-append, Apart-sym, store-same, store-other, Segment-append, Segment-split,
  Segment-store_next, Segment-store_prev, Segment-set_last,
}
use litetvm_ffi.Map.Dense.Links.Parts.{
  IsList, Parts, link_next-Parts, link_prev-Parts, link_next-other, link_next-prev, Parts-IsList,
  link_prev-other, link_prev-next, Parts-node, test_ne,
}

-- A node of the list, between the nodes before and behind it
record Around (l : Links) (is : List ℕ) (i : ℕ) (js : List ℕ) : Type 0 where
  prev_last : l.prev i ≡ last_or k_invalid_index is
  next_first : l.next i ≡ first_or k_invalid_index js
  parts : Parts l i is i js
  before : Unique is × Absent k_invalid_index is × Absent i is
  behind : Unique js × Absent k_invalid_index js × Absent i js
  apart : Apart is js

IsList-Around :
    (l : Links) (is : List ℕ) (i : ℕ) (js : List ℕ) → IsList l (is ++ i ∷ js) → Around l is i js
IsList-Around l is i js h =
    let s = Segment-split l.prev l.next k_invalid_index k_invalid_index is (i ∷ js) h.segment in
    let u = Unique-split is (i ∷ js) h.unique in
    let v = All-split (λ t. k_invalid_index ≢ t) is (i ∷ js) h.valid in
    let sep = Apart-sym is (i ∷ js) u.2 in
    record {
      prev_last = s.1.0;
      next_first = s.1.1;
      parts = record {
        head_first = h.head_first ∙ first_or-append k_invalid_index is (i ∷ js);
        before = s.0;
        tail_last = h.tail_last ∙ last_or-append k_invalid_index is (i ∷ js);
        behind = s.1.2;
      };
      before = (u.0, v.0, sep.0);
      behind = (u.1.1, v.1.1, u.1.0);
      apart = Apart-sym js is sep.1;
    }

-- `IterListUnlink` takes the node out of the list.
pub unlink-append :
    (l : Links) (is : List ℕ) (i : ℕ) (js : List ℕ)
    → IsList l (is ++ i ∷ js)
    → IsList (iter_list_unlink i l) (is ++ js)
unfolding iter_list_unlink
unlink-append l is i js h =
    let a = IsList-Around l is i js h in
    let (ui, vi, ii) = a.before in
    let (uj, vj, ij) = a.behind in
    let e = first_or k_invalid_index js in
    let first = link_next (last_or k_invalid_index is) e l in
    let stays : first.next i ≡ l.next i = link_next-other i e is l ii in
    let stays' : first.prev i ≡ l.prev i =
      ap (λ f. f i) (link_next-prev (last_or k_invalid_index is) e l) in
    let p =
      link_prev-Parts (last_or k_invalid_index is) e i is js first
        (link_next-Parts e i i is js l a.parts ui vi a.apart) uj vj (Apart-sym is js a.apart) in
    rw (a.prev_last, a.next_first, stays, stays', a.prev_last, a.next_first)
      (Parts-IsList (link_prev e (last_or k_invalid_index is) first) is js p
        (Unique-append is js ui uj a.apart) (All-append (λ t. k_invalid_index ≢ t) is js vi vj))

-- The item of a node, with the links of the place that it is put into
placed : ℕ → List ℕ → List ℕ → Links → Links
placed dst is js l = record l {
  prev = store dst (last_or k_invalid_index is) l.prev;
  next = store dst (first_or k_invalid_index js) l.next;
}

replace_links :
    (l : Links) (is : List ℕ) (src : ℕ) (js : List ℕ) (dst : ℕ)
    → Around l is src js
    → Absent dst is
    → iter_list_replace_node_by src dst l
      ≡ link_prev
          (first_or k_invalid_index js)
          dst
          (link_next (last_or k_invalid_index is) dst (placed dst is js l))
unfolding iter_list_replace_node_by placed
replace_links l is src js dst a new =
    let item = placed dst is js l in
    let next_kept : (link_next (last_or k_invalid_index is) dst item).next dst ≡ item.next dst =
      link_next-other dst dst is item new in
    rw
      (
        a.prev_last,
        a.next_first,
        store-same dst (last_or k_invalid_index is) l.prev,
        next_kept,
        store-same dst (first_or k_invalid_index js) l.next,
      )
      refl

placed-Parts :
    (l : Links) (is : List ℕ) (src : ℕ) (js : List ℕ) (dst : ℕ)
    → Parts l src is src js
    → Absent dst is
    → Absent dst js
    → Parts (placed dst is js l) src is src js
unfolding placed
placed-Parts l is src js dst h newi newj =
    let p = last_or k_invalid_index is in
    let n = first_or k_invalid_index js in
    let next = store dst n l.next in
    record {
      head_first = h.head_first;
      before =
          Segment-store_prev l.prev next dst p k_invalid_index src is newi
            (Segment-store_next l.prev l.next dst n k_invalid_index src is newi h.before);
      tail_last = h.tail_last;
      behind =
          Segment-store_prev l.prev next dst p src k_invalid_index js newj
            (Segment-store_next l.prev l.next dst n src k_invalid_index js newj h.behind);
    }

-- `IterListReplaceNodeBy` puts a node that is not on the list into another one's place.
pub replace_node-append :
    (l : Links) (is : List ℕ) (src : ℕ) (js : List ℕ) (dst : ℕ)
    → IsList l (is ++ src ∷ js)
    → Absent dst (is ++ src ∷ js)
    → k_invalid_index ≢ dst
    → IsList (iter_list_replace_node_by src dst l) (is ++ dst ∷ js)
unfolding placed
replace_node-append l is src js dst h new proper =
    let a = IsList-Around l is src js h in
    let (ui, vi, ii) = a.before in
    let (uj, vj, ij) = a.behind in
    let (newi, newsj) = All-split (λ t. dst ≢ t) is (src ∷ js) new in
    let p = last_or k_invalid_index is in
    let n = first_or k_invalid_index js in
    let item = placed dst is js l in
    let first = link_next p dst item in
    let sep = Apart-sym is js a.apart in
    let linked =
      link_prev-Parts dst dst src is js first
        (link_next-Parts dst src src is js item (placed-Parts l is src js dst a.parts newi newsj.1)
          ui vi a.apart)
        uj vj sep in
    rw (replace_links l is src js dst a newi) (
      Parts-node (link_prev n dst first) is dst js linked
        (link_prev-other dst dst js first newsj.1
          ∙ ap (λ f. f dst) (link_next-prev p dst item)
          ∙ store-same dst p l.prev)
        (ap (λ f. f dst) (link_prev-next n dst first)
          ∙ link_next-other dst dst is item newi
          ∙ store-same dst n l.next)
        (Unique-append is (dst ∷ js) ui (newsj.1, uj) (Apart-sym (dst ∷ js) is (newi, sep)))
        (All-append (λ t. k_invalid_index ≢ t) is (dst ∷ js) vi (proper, vj)))

-- `IterListPushBack` puts a node that is not on the list behind it.
pub push_back-append :
    (l : Links) (is : List ℕ) (i : ℕ)
    → IsList l is
    → Absent i is
    → k_invalid_index ≢ i
    → IsList (iter_list_push_back i l) (is ++ i ∷ [])
unfolding iter_list_push_back
push_back-append l [] i h new proper =
    rw (h.head_first, h.tail_last)
      (record {
        head_first = refl;
        tail_last = refl;
        segment = (store-same i k_invalid_index l.prev, store-same i k_invalid_index l.next, tt);
        unique = (tt, tt);
        valid = (proper, tt);
      })
push_back-append l (j ∷ is) i h new proper =
    let last = last_or j is in
    let ends : (last == k_invalid_index) ≡ false =
      test_ne last k_invalid_index
        (λ p. All-last (λ t. k_invalid_index ≢ t) j is h.valid (sym p)) in
    let starts : (j == k_invalid_index) ≡ false =
      test_ne j k_invalid_index (λ p. h.valid.0 (sym p)) in
    let next = store i k_invalid_index l.next in
    let prev = store i last l.prev in
    let kept = Segment-store_prev l.prev next i last k_invalid_index k_invalid_index (j ∷ is) new (
      Segment-store_next l.prev l.next i k_invalid_index k_invalid_index k_invalid_index (j ∷ is)
        new h.segment) in
    let behind : last ≢ i = λ p. All-last (λ t. i ≢ t) j is new (sym p) in
    rw (h.tail_last, ends, h.head_first, starts)
      (record {
        head_first = refl;
        tail_last = sym (last_or-append k_invalid_index (j ∷ is) (i ∷ []));
        segment =
            Segment-append prev (store last i next) k_invalid_index k_invalid_index (j ∷ is)
              (i ∷ [])
              (Segment-set_last prev next i k_invalid_index k_invalid_index j is h.unique kept)
              (
                store-same i last l.prev,
                store-other last i i next behind ∙ store-same i k_invalid_index l.next,
                tt,
              );
        unique =
            Unique-append (j ∷ is) (i ∷ []) h.unique (tt, tt)
              (Apart-sym (i ∷ []) (j ∷ is) (new, tt));
        valid = All-append (λ t. k_invalid_index ≢ t) (j ∷ is) (i ∷ []) h.valid (proper, tt);
      })
