-- ===== src/View/Styles/Texts.antt =====
-- The style sheets of frontend/src/pages/LandingPage.tsx, pages/LobbyPage.tsx,
-- components/WaitingRoom.tsx, components/GameRoom.tsx and components/ChatInput.tsx, line by line,
-- with the design tokens of each file written out.
use Prim.Native.String.{String}
use mathlib.Core.List.{List, [], ◌∷◌}

abbrev pub keyframes : List String
keyframes =
    "" ∷ "  @keyframes blink {" ∷ "    0%, 100% { opacity: 1; }" ∷ "    50%       { opacity: 0; }"
    ∷ "  }" ∷ "  @keyframes scanline {" ∷ "    0%   { background-position: 0 0; }"
    ∷ "    100% { background-position: 0 100%; }" ∷ "  }" ∷ "  @keyframes ambientShift {"
    ∷ "    0%   { opacity: 0.04; transform: scale(1) translate(0, 0); }"
    ∷ "    33%  { opacity: 0.06; transform: scale(1.05) translate(2%, -1%); }"
    ∷ "    66%  { opacity: 0.03; transform: scale(0.98) translate(-1%, 2%); }"
    ∷ "    100% { opacity: 0.04; transform: scale(1) translate(0, 0); }" ∷ "  }"
    ∷ "  @keyframes fadeIn {" ∷ "    from { opacity: 0; }" ∷ "    to   { opacity: 1; }" ∷ "  }" ∷ ""
    ∷ []

abbrev pub lobby_css : List String
lobby_css =
    "" ∷ "    body { margin: 0; }" ∷ "    body::before {"
    ∷ "      content: ''; position: fixed; inset: 0; pointer-events: none; z-index: 9999;"
    ∷ "      opacity: 0.04;"
    ∷ "      background-image: url(\"data:image/svg+xml,%3Csvg viewBox='0 0 256 256' xmlns='http://www.w3.org/2000/svg'%3E%3Cfilter id='n'%3E%3CfeTurbulence type='fractalNoise' baseFrequency='0.9' numOctaves='4' stitchTiles='stitch'/%3E%3C/filter%3E%3Crect width='100%25' height='100%25' filter='url(%23n)'/%3E%3C/svg%3E\");"
    ∷ "      background-size: 128px;" ∷ "    }"
    ∷ "    #lobby-code-input { text-transform: uppercase; text-align: center; font-family: 'JetBrains Mono', monospace; letter-spacing: 0.2em; font-size: 15px; }"
    ∷ "    input:focus { border-color: #C4963A !important; }"
    ∷ "    .lobby-row:hover { background: #221E17 !important; }"
    ∷ "    .lobby-btn-refresh:hover { color: #ECE7DE !important; border-color: #2E2820 !important; }"
    ∷ "    .lobby-btn-join:hover { background: rgba(196,150,58,0.2) !important; }"
    ∷ "    .lobby-btn-create:hover { background: rgba(196,150,58,0.2) !important; }"
    ∷ "    .lobby-btn-quick:hover { background: rgba(196,150,58,0.2) !important; }"
    ∷ "    .lobby-btn-code:hover { border-color: #786F62 !important; color: #ECE7DE !important; }"
    ∷ "    .modal-cancel:hover { border-color: #786F62 !important; color: #ECE7DE !important; }"
    ∷ "    .modal-join:hover { background: rgba(196,150,58,0.2) !important; }"
    ∷ "    @keyframes fadeRow { from { opacity: 0; transform: translateX(-4px); } to { opacity: 1; transform: translateX(0); } }"
    ∷ "    @keyframes slideModal { from { opacity: 0; transform: scale(0.97) translateY(10px); } to { opacity: 1; transform: scale(1) translateY(0); } }"
    ∷ "    ::-webkit-scrollbar { width: 4px; }"
    ∷ "    ::-webkit-scrollbar-track { background: #181410; }"
    ∷ "    ::-webkit-scrollbar-thumb { background: #2E2820; border-radius: 2px; }" ∷ "  " ∷ []

abbrev pub waiting_room_css : List String
waiting_room_css =
    "" ∷ "    body::before {"
    ∷ "      content: ''; position: fixed; inset: 0; pointer-events: none; z-index: 9999;"
    ∷ "      opacity: 0.04;"
    ∷ "      background-image: url(\"data:image/svg+xml,%3Csvg viewBox='0 0 256 256' xmlns='http://www.w3.org/2000/svg'%3E%3Cfilter id='n'%3E%3CfeTurbulence type='fractalNoise' baseFrequency='0.9' numOctaves='4' stitchTiles='stitch'/%3E%3C/filter%3E%3Crect width='100%25' height='100%25' filter='url(%23n)'/%3E%3C/svg%3E\");"
    ∷ "      background-size: 128px;" ∷ "    }"
    ∷ "    #waiting-start-btn:hover:not(:disabled) { background: rgba(196,150,58,0.2) !important; }"
    ∷ "    @keyframes waitPulse { 0%,100% { opacity: 1; } 50% { opacity: 0.5; } }" ∷ "  " ∷ []

abbrev pub game_room_css : List String
game_room_css =
    "" ∷ "    body::before {"
    ∷ "      content: ''; position: fixed; inset: 0; pointer-events: none; z-index: 9999;"
    ∷ "      opacity: 0.04;"
    ∷ "      background-image: url(\"data:image/svg+xml,%3Csvg viewBox='0 0 256 256' xmlns='http://www.w3.org/2000/svg'%3E%3Cfilter id='n'%3E%3CfeTurbulence type='fractalNoise' baseFrequency='0.9' numOctaves='4' stitchTiles='stitch'/%3E%3C/filter%3E%3Crect width='100%25' height='100%25' filter='url(%23n)'/%3E%3C/svg%3E\");"
    ∷ "      background-size: 128px;" ∷ "    }"
    ∷ "    #mafia-chat-input:focus { border-color: #8C1F1F !important; outline: none; }"
    ∷ "    ::-webkit-scrollbar { width: 4px; }"
    ∷ "    ::-webkit-scrollbar-track { background: #181410; }"
    ∷ "    ::-webkit-scrollbar-thumb { background: #2E2820; border-radius: 2px; }" ∷ "  " ∷ []

abbrev pub chat_input_css : List String
chat_input_css =
    "" ∷ "    #chat-input-field:focus { border-color: #C4963A !important; outline: none; }"
    ∷ "    #chat-send-btn:hover:not(:disabled) { background: rgba(196,150,58,0.2) !important; }"
    ∷ "    #chat-input-field:disabled { opacity: 0.4; cursor: not-allowed; }" ∷ "  " ∷ []
