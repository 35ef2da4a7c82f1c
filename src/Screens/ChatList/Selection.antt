-- ===== src/Screens/ChatList/Selection.antt =====
-- src/screens/chat_list.rs: the selection under the operations of the pane.
use construct_tui.Prelude.{
  ℕ, zero, suc, min, ◌+◌, ◌-◌, ◌<◌, ◌≡◌, refl, arith, Option, none, some, List, [], ◌∷◌, length,
  length-append, get_elem?, get_elem?,
}
use construct_tui.Screens.ChatList.{
  Contact, ChatListPane, new_pane, set_contacts, add_contact, next, prev, remove_at, remove_nth,
  at_index, or_first, map_index, selection_after, selected_contact,
}

-- A pane with contacts has a selected one, and an empty pane has none.
abbrev pub IsIndex : ℕ → Option ℕ → Type 0
IsIndex n none = n ≡ 0
IsIndex n (some i) = i < n

abbrev pub IsSelected : ChatListPane → Type 0
IsSelected p = IsIndex (length p.contacts) p.selected

-- The operations of the pane.
pub data PaneOp : Type 0 where
  set : List Contact → PaneOp
  add : Contact → PaneOp
  remove : ℕ → PaneOp
  down up : PaneOp

unfoldable pub apply_op : PaneOp → ChatListPane → ChatListPane
apply_op (set cs) = set_contacts cs
apply_op (add c) = add_contact c
apply_op (remove i) = remove_at i
apply_op down = next
apply_op up = prev

length-remove_nth :
    {A : Type 0} (i : ℕ) (xs : List A) → i < length xs → length (remove_nth i xs) ≡ length xs - 1
length-remove_nth i [] h = ground arith
length-remove_nth zero (x ∷ xs) h = ground arith
length-remove_nth (suc i) (x ∷ xs) h = ground (arith, length-remove_nth i xs)

or_first-IsIndex : (n : ℕ) (o : Option ℕ) → IsIndex n o → IsIndex (n + 1) (or_first o)
or_first-IsIndex n none h = omega arith
or_first-IsIndex n (some i) h = omega arith

next-IsIndex :
    (n : ℕ) (o : Option ℕ) → IsIndex n o → IsIndex n (map_index (λ i. min (i + 1) (n - 1)) o)
next-IsIndex n none h = h
next-IsIndex n (some i) h = omega arith

prev-IsIndex : (n : ℕ) (o : Option ℕ) → IsIndex n o → IsIndex n (map_index (λ i. i - 1) o)
prev-IsIndex n none h = h
prev-IsIndex n (some i) h = omega arith

pub set_contacts-IsSelected :
    (cs : List Contact) (p : ChatListPane) → IsSelected (set_contacts cs p)
unfolding set_contacts
set_contacts-IsSelected [] p = refl
set_contacts-IsSelected (c ∷ cs) p = omega arith

pub add_contact-IsSelected :
    (c : Contact) (p : ChatListPane) → IsSelected p → IsSelected (add_contact c p)
unfolding add_contact
add_contact-IsSelected c p h =
    ground
      (arith, length-append p.contacts (c ∷ []), or_first-IsIndex (length p.contacts) p.selected)

pub next-IsSelected : (p : ChatListPane) → IsSelected p → IsSelected (next p)
unfolding next
next-IsSelected p h = next-IsIndex (length p.contacts) p.selected h

pub prev-IsSelected : (p : ChatListPane) → IsSelected p → IsSelected (prev p)
unfolding prev
prev-IsSelected p h = prev-IsIndex (length p.contacts) p.selected h

selection_after-IsIndex : (i : ℕ) (cs : List Contact) → IsIndex (length cs) (selection_after i cs)
selection_after-IsIndex i [] = refl
selection_after-IsIndex i (c ∷ cs) = omega arith

pub remove_at-IsSelected : (i : ℕ) (p : ChatListPane) → IsSelected p → IsSelected (remove_at i p)
unfolding remove_at
remove_at-IsSelected i p h = ground (arith, selection_after-IsIndex i (remove_nth i p.contacts))

apply_op-IsSelected : (op : PaneOp) (p : ChatListPane) → IsSelected p → IsSelected (apply_op op p)
unfolding apply_op
apply_op-IsSelected (set cs) p h = set_contacts-IsSelected cs p
apply_op-IsSelected (add c) p h = add_contact-IsSelected c p h
apply_op-IsSelected (remove i) p h = remove_at-IsSelected i p h
apply_op-IsSelected down p h = next-IsSelected p h
apply_op-IsSelected up p h = prev-IsSelected p h

get_elem?-lt :
    {A : Type 0} (xs : List A) (i : ℕ) → i < length xs → (x : A) × (get_elem? xs i ≡ some x)
get_elem?-lt [] i h = ground arith
get_elem?-lt (x ∷ xs) zero h = (x, refl)
get_elem?-lt (x ∷ xs) (suc i) h = get_elem?-lt xs i (omega (arith, h))

IsIndex-at_index :
    {A : Type 0} (xs : List A) (o : Option ℕ)
    → IsIndex (length xs) o
    → 0 < length xs
    → (x : A) × (at_index o xs ≡ some x)
IsIndex-at_index xs none h any = ground arith
IsIndex-at_index xs (some i) h any = get_elem?-lt xs i h

unfoldable pub apply_ops : List PaneOp → ChatListPane → ChatListPane
apply_ops [] p = p
apply_ops (op ∷ ops) p = apply_ops ops (apply_op op p)

apply_ops-IsSelected :
    (ops : List PaneOp) (p : ChatListPane) → IsSelected p → IsSelected (apply_ops ops p)
unfolding apply_ops
apply_ops-IsSelected [] p h = h
apply_ops-IsSelected (op ∷ ops) p h =
    apply_ops-IsSelected ops (apply_op op p) (apply_op-IsSelected op p h)

-- Whatever is loaded, added, removed and selected, a new pane that ends with contacts has one
-- of them selected.
pub apply_ops_selected :
    (ops : List PaneOp)
    → 0 < length (apply_ops ops new_pane).contacts
    → (c : Contact) × (selected_contact (apply_ops ops new_pane) ≡ some c)
unfolding selected_contact
apply_ops_selected ops any =
    let p = apply_ops ops new_pane in
    IsIndex-at_index p.contacts p.selected (apply_ops-IsSelected ops new_pane refl) any
