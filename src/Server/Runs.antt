-- ===== src/Server/Runs.antt =====
-- Runs of the server: its frames, its command line, its handshake, a connection, and its replies.
mod Start
mod Traffic
use velo_bus.Prelude.{◌≡◌, [], ◌∷◌, ◌++◌, arith}
use velo_bus.Server.{framed, read_frame, response_frame}
use velo_bus.Server.Framing.{read_frame-response_frame}

read_frame-response_frame_example :
    read_frame (response_frame 2 7 (1 ∷ 2 ∷ []) ++ 0 ∷ 0 ∷ [])
    ≡ framed 2 7 (1 ∷ 2 ∷ []) (0 ∷ 0 ∷ [])
read_frame-response_frame_example =
    read_frame-response_frame 2 7 (1 ∷ 2 ∷ []) (0 ∷ 0 ∷ []) (omega arith) (omega arith)
