-- ===== src/View.antt =====
-- The components of frontend/src, as functions from the store to what they render.
pub mod Dom
pub mod VotePanel
pub mod NightPanel
pub mod Chat
pub mod Cinematic
pub mod AdBanner
pub mod Header
pub mod PlayerList
pub mod WaitingRoom
pub mod GameRoom
pub mod ResultOverlay
pub mod RoomPage
pub mod LobbyPage
pub mod ProfilePage
pub mod LandingPage
pub mod Measure
pub mod Styles
