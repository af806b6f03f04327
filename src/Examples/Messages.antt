-- ===== src/Examples/Messages.antt =====
-- A payload of five bytes in three datagrams, from teleport/src/protocol.rs through three rounds of
-- teleport/src/target.rs.
use iracing_teleport.Base.{
  ℕ, ◌≤◌, ◌≡◌, ◌≢◌, refl, ap, List, [], ◌∷◌, map, true, false, some, none, arith, length, replicate,
}
use iracing_teleport.Control.{running}
use iracing_teleport.Protocol.Sender.{Sender, send}
use iracing_teleport.Protocol.Sender.Datagrams.{IsSender}
use iracing_teleport.Protocol.Receiver
use iracing_teleport.Protocol.Receiver.Valid.{IsReceiver, new-IsReceiver}
use iracing_teleport.Protocol.Reassembly.RoundTrip.{deliver}
use iracing_teleport.Target
use iracing_teleport.Target.{Target, Env, write_frame}
use iracing_teleport.Target.Loop
use iracing_teleport.Link.Session.{memory}
use iracing_teleport.Link.Rounds.{copies, IsSame, IsSame-refl}
use iracing_teleport.Link.Delivered.{recv_all, apply_all, recv_all-apply_all, recv_all-send}

abbrev sender : Sender
sender = record { sequence = 7; buf = replicate 26 0; payload_per_datagram = 2 }

sender-IsSender : IsSender sender
sender-IsSender = omega arith

abbrev payload : List ℕ
payload = 1 ∷ 2 ∷ 3 ∷ 4 ∷ 5 ∷ []

abbrev config : Target.Config
config = record {
  fanalab = false;
  write_ibt = false;
  has_first_data = true;
  has_stale = true;
  has_stats = false;
  stale_timeout = 10000000;
}

abbrev env : Env
env = record { now = 5000000; created = none; spawned = false }

abbrev target : Target
target = record (Loop.new 4000 0) { telemetry = some (replicate 200 0) }

abbrev rounds : List (List ℕ) → List (Env × List ℕ)
rounds ds = map (λ d. (env, d)) ds

map-rounds : (ds : List (List ℕ)) → map (λ x. x.1) (rounds ds) ≡ ds
map-rounds [] = refl
map-rounds (d ∷ ds) = ap (λ l. d ∷ l) (map-rounds ds)

target-IsReceiver : IsReceiver target.proto
unfolding Loop.new
target-IsReceiver = new-IsReceiver 4000

idle_receiver : target.proto.current_seq ≢ some sender.sequence
unfolding Loop.new Receiver.new
idle_receiver = cc

room : length payload ≤ target.proto.max_payload
unfolding Loop.new Receiver.new
room = omega arith

recv_all-send_example :
    let (control, t, effects) =
      recv_all (λ c. some c) config 5 (rounds (send deliver sender payload 1 64 []).2) target in
    (e : Env) × (let (handled, u, written) =
        write_frame (λ c. some c) config e target (memory target) payload 64 in
      (control ≡ running) × IsSame t u × (copies effects ≡ copies written))
recv_all-send_example =
    recv_all-send (λ c. some c) config 5 sender target
      (rounds (send deliver sender payload 1 64 []).2) payload 1 64 sender-IsSender
      target-IsReceiver refl (omega arith) (omega arith) (omega arith) (omega arith) (omega arith)
      idle_receiver room (map-rounds (send deliver sender payload 1 64 []).2)

recv_all-apply_all_example :
    let (control, t, effects) = recv_all (λ c. some c) config 5 (rounds ((1 ∷ []) ∷ [])) target in
    let (u, copied) =
      apply_all (λ c. some c) config 5 target.proto (rounds ((1 ∷ []) ∷ [])) target in
    (control ≡ running) × IsSame t u × (copies effects ≡ copied)
recv_all-apply_all_example =
    recv_all-apply_all (λ c. some c) config 5 (rounds ((1 ∷ []) ∷ [])) target target target.proto
      (IsSame-refl target) refl refl
