-- ===== src/Simulator/Lists.antt =====
-- cinqs/tools/List.h, List.cpp and OrderedList.cpp: linked lists of customers or of events, with
-- the iterator that changes them in place. An object is its id and a node its address; `fresh` is
-- the address that the next `new` gives. `none` is a failed assertion, a NULL pointer that is
-- followed, or a loop that has not ended.
pub mod Cells
pub mod Memory
pub mod Walk
pub mod Ends
pub mod Changes
pub mod Refinement
use vexjine.Common.{
  ℕ, zero, suc, ◌==◌, Bool, true, false, not, ◌&&◌, Option, none, some, ◌>>=◌, put, empty_map,
  if◌then◌else◌,
}

pub record ListNode : Type 0 where
  pub object : ℕ
  pub next : ℕ

abbrev pub null : ℕ
null = 0

pub record ObjectList : Type 0 where
  pub nodes : ℕ → Option ListNode
  pub fresh : ℕ
  pub first_node : ℕ
  pub last_node : ℕ

unfoldable pub new_list : ObjectList
new_list = record { nodes = empty_map; fresh = 1; first_node = null; last_node = null }

abbrev pub load : ObjectList → ℕ → Option ListNode
load l p = if p == null then none else l.nodes p

abbrev pub allocate : ObjectList → ℕ → ℕ → ObjectList
allocate l o next = record l {
  nodes = put l.nodes l.fresh (some (record { object = o; next = next }));
  fresh = suc l.fresh;
}

abbrev pub set_next : ObjectList → ℕ → ℕ → Option ObjectList
set_next l p q = do
  n ← load l p
  some (record l { nodes = put l.nodes p (some (record n { next = q })) })

abbrev pub delete_node : ObjectList → ℕ → ObjectList
delete_node l p = record l { nodes = put l.nodes p none }

unfoldable pub is_empty : ObjectList → Bool
is_empty l = l.first_node == null

unfoldable pub first : ObjectList → Option ℕ
unfolding is_empty
first l = if is_empty l then none else (do n ← load l l.first_node; some n.object)

unfoldable pub last : ObjectList → Option ℕ
unfolding is_empty
last l = if is_empty l then none else (do n ← load l l.last_node; some n.object)

-- The branch of an empty list, common to both ends.
unfoldable pub set_first_and_last_equal_to : ObjectList → ℕ → ObjectList
set_first_and_last_equal_to l p = record l { first_node = p; last_node = p }

unfoldable pub insert_at_front : ObjectList → ℕ → ObjectList
unfolding is_empty set_first_and_last_equal_to
insert_at_front l o =
    if is_empty l
    then set_first_and_last_equal_to (allocate l o null) l.fresh
    else record (allocate l o l.first_node) { first_node = l.fresh }

unfoldable pub insert_at_back : ObjectList → ℕ → Option ObjectList
unfolding is_empty set_first_and_last_equal_to
insert_at_back l o =
    if is_empty l then some (set_first_and_last_equal_to (allocate l o null) l.fresh) else (do
      l' ← set_next (allocate l o null) l.last_node l.fresh
      some (record l' { last_node = l.fresh }))

unfoldable pub remove_from_front : ObjectList → Option (ObjectList × ℕ)
unfolding is_empty set_first_and_last_equal_to
remove_from_front l = if is_empty l then none else (do
  n ← load l l.first_node
  let rest = delete_node l l.first_node
  some (
    if l.first_node == l.last_node
        then set_first_and_last_equal_to rest null
        else record rest { first_node = n.next },
    n.object,
  ))

-- `while (current->next != lastNode) current = current->next`.
unfoldable pub find_before_last : ℕ → ObjectList → ℕ → Option ℕ
find_before_last zero l current = none
find_before_last (suc fuel) l current = do
  n ← load l current
  let further = find_before_last fuel l n.next
  if n.next == l.last_node then some current else further

unfoldable pub remove_from_back : ObjectList → Option (ObjectList × ℕ)
unfolding is_empty set_first_and_last_equal_to find_before_last
remove_from_back l = if is_empty l then none else (do
  n ← load l l.last_node
  let rest = delete_node l l.last_node
  if l.first_node == l.last_node
      then some (set_first_and_last_equal_to rest null, n.object)
      else (do
        current ← find_before_last l.fresh l l.first_node
        l' ← set_next (record rest { last_node = current }) current null
        some (l', n.object)))

pub record ListIterator : Type 0 where
  pub list : ObjectList
  pub p : ℕ
  pub q : ℕ

unfoldable pub get_iterator : ObjectList → ListIterator
get_iterator l = record { list = l; p = null; q = l.first_node }

unfoldable pub can_advance : ListIterator → Bool
can_advance it = not (it.q == null)

unfoldable pub get_value : ListIterator → Option ℕ
get_value it = do n ← load it.list it.q; some n.object

unfoldable pub advance : ListIterator → Option ListIterator
advance it = do n ← load it.list it.q; some (record it { p = it.q; q = n.next })

unfoldable pub add : ListIterator → ℕ → Option ListIterator
unfolding set_first_and_last_equal_to
add it o =
    let l = allocate it.list o it.q in
    let new = it.list.fresh in
    if (it.p == null) && (it.q == null)
    then some (record it { list = set_first_and_last_equal_to l new; q = new })
    else if it.p == null
    then some (record it { list = record l { first_node = new }; p = new })
    else (do
      l' ← set_next l it.p new
      some (record it {
        list = if it.q == null then record l' { last_node = new } else l';
        p = new;
      }))

-- What follows once the node before `q` leads past it.
abbrev pub move_on : ListIterator → ObjectList → ℕ → ListIterator
move_on it l q = record it { list = if q == null then record l { last_node = it.p } else l; q = q }

-- `ListIterator::remove`; the node is not deleted.
unfoldable pub remove_value : ListIterator → Option ListIterator
remove_value it = do
  n ← load it.list it.q
  let moved = record (it.list) { first_node = n.next }
  if it.p == null
      then some (move_on it moved n.next)
      else (do l ← set_next it.list it.p n.next; some (move_on it l n.next))

-- `while (it->canAdvance() && passes(it->getValue())) it->advance()`.
unfoldable pub advance_while : (ℕ → Bool) → ℕ → ListIterator → Option ListIterator
unfolding can_advance get_value advance
advance_while passes zero it = none
advance_while passes (suc fuel) it =
    if can_advance it
    then (do
      o ← get_value it
      it' ← advance it
      let further = advance_while passes fuel it'
      if passes o then further else some it)
    else some it

-- After the loop the value is read, also at the end of the list.
unfoldable pub remove : ObjectList → ℕ → Option ObjectList
unfolding get_iterator advance_while get_value remove_value
remove l o = do
  it ← advance_while (λ v. not (v == o)) l.fresh (get_iterator l)
  v ← get_value it
  let removed = remove_value it
  if v == o then (do it' ← removed; some it'.list) else some it.list

unfoldable pub insert_in_order : (ℕ → ℕ → Bool) → ObjectList → ℕ → Option ObjectList
unfolding get_iterator advance_while add
insert_in_order before l o = do
  it ← advance_while (λ v. before v o) l.fresh (get_iterator l)
  it' ← add it o
  some it'.list
