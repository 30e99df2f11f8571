-- ===== src/Endpoint/Transport/Tests.antt =====
-- Commands of the task that owns the socket, and the theorems on them at concrete endpoints.
use mctp_emu.Prelude.{◌↔◌, ℕ, ◌≡◌, refl, List, [], ◌∷◌, ◌++◌, some, Bool, true, arith}
use mctp_emu.Crates.Reference.{reference}
use mctp_emu.Control.MessageType.{control}
use mctp_emu.Endpoint.Responder.Tests.{start, front}
use mctp_emu.Endpoint.Responder.Requests.{request, answer, get_endpoint_id_answer}
use mctp_emu.Endpoint.Transport.{
  aborted, Transport, transmitted, responded, send_msg, receive_msg, handle_cmd, main_context,
}
use mctp_emu.Endpoint.Transport.Frames.{datagram}
use mctp_emu.Endpoint.Transport.Exchange.{handle_cmd-handle_cmd}
use mctp_emu.Endpoint.Transport.Crash.{FatalDatagram, handle_cmd-aborted}

-- A checksum for the tests.
abbrev pub pec : List ℕ → ℕ
pec buf = 0x5a

abbrev listening : ℕ → Bool
listening resp = true

-- An endpoint as `main` starts it.
abbrev pub fresh : Transport ℕ
fresh = record { ctx = main_context; pending_cmd = [] }

-- One endpoint asks another, with nothing else pending, for its EID.
abbrev pub asking : List ℕ
asking = request front 0x02 []

abbrev replying : List ℕ
replying = answer front 0x02 (0 ∷ 0 ∷ 0 ∷ 0 ∷ [])

handle_cmd-handle_cmd_example :
    (near' : Transport ℕ) × (handle_cmd pec true listening fresh
        (send_msg control asking (some 100))
      ≡ (near', transmitted (datagram pec asking)))
    × (handle_cmd pec true listening fresh (receive_msg (datagram pec asking))
        ≡ (fresh, transmitted (datagram pec replying)))
    × (handle_cmd pec true listening near' (receive_msg (datagram pec replying))
        ≡ (fresh, responded 100 (replying ++ (0x5a ∷ []))))
handle_cmd-handle_cmd_example =
    handle_cmd-handle_cmd pec listening fresh listening fresh control front 0x02 [] 100 start
      replying (omega arith) (omega arith) (omega arith)
      (get_endpoint_id_answer start front (0x5a ∷ [])
        (record { flags_byte = omega arith; second_byte = omega arith }))
      tt tt refl

-- A request with the command code 0x42.
abbrev deadly : List ℕ
deadly = 0x60 ∷ 0x0f ∷ 8 ∷ 0x21 ∷ request front 0x42 []

handle_cmd-aborted_example :
    ((handle_cmd pec true listening fresh (receive_msg deadly)).1 ≡ aborted)
    ↔ FatalDatagram listening fresh deadly
handle_cmd-aborted_example = handle_cmd-aborted pec listening fresh deadly (
  omega arith,
  (
    omega arith,
    (
      omega arith,
      (
        omega arith,
        (
          omega arith,
          (
            omega arith,
            (omega arith, (omega arith, (omega arith, (omega arith, (omega arith, tt))))),
          ),
        ),
      ),
    ),
  ),
)
