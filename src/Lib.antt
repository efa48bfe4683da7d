-- ===== src/Lib.antt =====
-- The web client of AI Mafia: the single-page application under frontend/src, in which a player
-- signs in, enters a room, plays the game over a WebSocket and sees its result. The server decides
-- the game; the client keeps a copy of the room, shows what a player may do, and sends it.
--
-- The parts and their files:
-- - Types: frontend/src/types.ts, one record or data type for each type of it.
-- - Store: frontend/src/store/gameStore.ts, the client of a room. Store/State has the store and the
--   module's variables as one record `Client`, with the browser's objects: the sockets made so far
--   (a socket is named by its index), the pending timeouts and the running intervals by their ids.
--   Store/Timer has `clearReconnectTimer`, `clearTimerInterval` and `startTimer`, Store/Overlay
--   `buildPhaseOverlay` and the overlay queue, Store/Events the cases of `onmessage`
--   with the updates of Store/Updates,
--   Store/Connection `connect`, `disconnect`, `sendAction` and the callbacks. `connect` waits twice,
--   for an import and for the token, so it is three functions: `connect`, `imported` and
--   `token_ready`, with the waiting bodies in `attempts`. Store/Steps orders all of this: an
--   `Input` is one thing that the browser, the server or a component does, `step` is what the client
--   does then, and `run` is any sequence of them. An input that cannot happen (a message on a socket
--   that is not open, a timer that does not run) changes nothing.
--   Store/Board is an abstract specification of the events: a `Board` is the game as a player knows
--   it, with the players, the living and the votes as functions of an id, and `hear` is what each
--   event promises. Store/Board/Represents relates a store to a board, and Store/Steps/Session
--   follows the events that come on an open socket. Store/Steps/Room is what it means that the
--   client is in a room, as a player.
-- - Api: frontend/src/api.ts, each call as the request that `fetch` is given, and `settle`, what
--   `request` makes of the reply.
-- - Auth: frontend/src/store/authStore.ts, cut at its awaits in the same way as `connect`.
-- - Lobby, Profile: the state and the handlers of frontend/src/pages/LobbyPage.tsx and
--   ProfilePage.tsx, each handler in two halves, before and behind its await, with the call that it
--   makes and where it navigates.
-- - Landing: frontend/src/pages/LandingPage.tsx, its counters, its feed, and a step for whatever the
--   observers, the timers and the frames of the browser do.
-- - View: the components of frontend/src/components and the pages of frontend/src/pages as functions
--   from the state to a tree of nodes (View/Dom). `clicks` gives the handlers that a click can
--   reach, and the handlers are functions on the client. View/Measure is the effect of three headings
--   that waits for the fonts and then observes its element, View/Styles what the pages add to the
--   head of the document. View/Cinematic has the effect that takes an
--   overlay away, View/AdBanner the cooldown of the reported impressions, View/RoomPage the effects
--   of RoomPage.tsx.
-- - Routes: frontend/src/main.tsx, the routes and the redirects of their pages.
-- - App: the route that is shown, the sign-in and the client of a room together, as main.tsx mounts
--   them: the effect of RoomPage.tsx, which connects and disconnects, runs again when the id in the
--   path or the player changes, and the blocker of that page holds a navigation back. App/Placed
--   relates the client to the page, and App/Journey follows a reply in the lobby to its room.
-- - Common: tests, lists, text and association lists; Tests: concrete runs.
--
-- Conventions. Numbers of the source that count (rounds, seconds, votes, delays) are natural
-- numbers. `decimal` recurses on fuel `n + 1`, and `decimal_from-fuel` in Common/Text shows that any
-- fuel above the number gives the same digits. A `Record<string, string>` is an association list in
-- insertion order; that JavaScript puts keys that look like integers first is left out, and so is
-- the prototype of an object. The width of a bar in VotePanel is the exact quotient, where the
-- source rounds a double, and so is the part of the time in a counter of the landing page, with
-- stamps in whole milliseconds. `Math.round(sec / 60)` is exact for whole seconds. Parameters stand
-- for what the browser and the libraries decide: how a rate or a number is printed in the user's
-- language, what a date says, upper case, how high a text is, and which route an address matches.
--
-- Not modelled: the Go server under backend, which is the sender of the events; the libraries (React,
-- the router, Supabase, zustand, the browser), of which an answer is an argument or an input; styles
-- that do not depend on the state or a position, and decorations; and how a text is measured, of
-- which the answer is a parameter.
pub mod Common
pub mod Types
pub mod Store
pub mod Api
pub mod Auth
pub mod Lobby
pub mod Profile
pub mod Landing
pub mod View
pub mod Routes
pub mod App
pub mod Tests
