-- ===== src/Screens.antt =====
-- src/screens/: the state that the screens keep between two key presses. What they draw is not
-- modelled; a text field is the bytes of its string, a key's character is its UTF-8 encoding.
pub mod ChatList
pub mod ChatView
pub mod Search
pub mod Fields
pub mod Settings
pub mod Safety
