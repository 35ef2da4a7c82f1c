-- ===== src/Screens/ChatView/Scroll.antt =====
-- src/screens/chat_view.rs: the window of messages under scrolling and new messages.
use construct_tui.Prelude.{
  ℕ, zero, suc, ◌+◌, ◌-◌, ◌<◌, ◌≤◌, min, ◌≡◌, ◌≢◌, refl, arith, List, [], ◌∷◌, ◌++◌, length, take,
  drop, length-append, length-take, length-drop, ◌⊎◌, ap,
}
use construct_tui.Screens.ChatView.{
  ChatMessage, ChatViewPane, scroll_up, scroll_down, scroll_to_top, scroll_to_bottom,
  on_new_message, visible, push_message,
}

-- A front that ends in a list is not changed by what is appended to the list.
take-drop-append :
    {A : Type 0} (n k : ℕ) (xs ys : List A)
    → k + n ≤ length xs
    → take n (drop k (xs ++ ys)) ≡ take n (drop k xs)
take-drop-append zero k xs ys h = refl
take-drop-append (suc n) k [] ys h = ground arith
take-drop-append (suc n) zero (x ∷ xs) ys h =
    ap (λ l. x ∷ l) (take-drop-append n zero xs ys (omega (arith, h)))
take-drop-append (suc n) (suc k) (x ∷ xs) ys h = take-drop-append (suc n) k xs ys (omega (arith, h))

-- When the user has scrolled up, by no more messages than there are, a new message leaves the shown
-- messages as they are.
pub visible-on_new_message :
    (height : ℕ) (m : ChatMessage) (v : ChatViewPane)
    → ◌≢◌ {A = ℕ} v.scroll_offset 0
    → v.scroll_offset ≤ length v.messages
    → visible height (on_new_message (push_message m v)) ≡ visible height v
unfolding visible on_new_message
visible-on_new_message height m v scrolled within =
    let n = length v.messages in
    let o = v.scroll_offset in
    let start = n - o - height in
    ground (
      arith,
      length-append v.messages (m ∷ []),
      take-drop-append (n - o - start) start v.messages (m ∷ []) (ground arith),
    )

-- What the user may do in the view, and what arrives meanwhile.
pub data Scrolling : Type 0 where
  up down : ℕ → Scrolling
  top bottom : Scrolling
  arrived : ChatMessage → Scrolling

unfoldable pub scrolled : Scrolling → ChatViewPane → ChatViewPane
scrolled (up n) = scroll_up n
scrolled (down n) = scroll_down n
scrolled top = scroll_to_top
scrolled bottom = scroll_to_bottom
scrolled (arrived m) = λ v. on_new_message (push_message m v)

unfoldable pub scroll_all : List Scrolling → ChatViewPane → ChatViewPane
scroll_all [] v = v
scroll_all (e ∷ es) v = scroll_all es (scrolled e v)

abbrev pub IsScrolled : ChatViewPane → Type 0
IsScrolled v = (v.scroll_offset ≡ 0) ⊎ (v.scroll_offset < length v.messages)

scrolled-IsScrolled : (e : Scrolling) (v : ChatViewPane) → IsScrolled v → IsScrolled (scrolled e v)
unfolding scrolled scroll_up scroll_down scroll_to_top scroll_to_bottom on_new_message
scrolled-IsScrolled (up n) v h = ground arith
scrolled-IsScrolled (down n) v h = ground arith
scrolled-IsScrolled top v h = ground arith
scrolled-IsScrolled bottom v h = ground arith
scrolled-IsScrolled (arrived m) v h = ground (arith, length-append v.messages (m ∷ []))

pub scroll_all-IsScrolled :
    (es : List Scrolling) (v : ChatViewPane) → IsScrolled v → IsScrolled (scroll_all es v)
unfolding scroll_all
scroll_all-IsScrolled [] v h = h
scroll_all-IsScrolled (e ∷ es) v h =
    scroll_all-IsScrolled es (scrolled e v) (scrolled-IsScrolled e v h)

length-visible :
    (height : ℕ) (v : ChatViewPane)
    → length (visible height v) ≡ min height (length v.messages - v.scroll_offset)
unfolding visible
length-visible height v =
    let n = length v.messages in
    let start = n - v.scroll_offset - height in
    ground (
      arith,
      length-take (n - v.scroll_offset - start) (drop start v.messages),
      length-drop start v.messages,
    )

-- A chat whose offset is zero, as in a new view, or less than its number of messages is scrolled by
-- the user in any way while any messages arrive in it: then, as long as it has messages and is not
-- exchanged for another chat, a pane of at least one line shows at least one of them, and never
-- more than the pane's height.
pub scroll_all_shows :
    (es : List Scrolling) (v : ChatViewPane) (height : ℕ)
    → IsScrolled v
    → 0 < height
    → 0 < length (scroll_all es v).messages
    → (0 < length (visible height (scroll_all es v)))
      × (length (visible height (scroll_all es v)) ≤ height)
scroll_all_shows es v height h tall any =
    rw (length-visible height (scroll_all es v)) ground (arith, scroll_all-IsScrolled es v h)
