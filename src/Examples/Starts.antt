-- ===== src/Examples/Starts.antt =====
-- The set-up of sockets and the FanaLab process (teleport/src/source.rs and target.rs), on a network
-- that logs its calls and cannot join groups, and with files that cannot be renamed.
use iracing_teleport.Base.{
  ℕ, ◌≡◌, refl, List, [], ◌∷◌, ◌++◌, Bool, true, false, Option, none, some, sym,
}
use mathlib.Core.List.{append-nil}
use iracing_teleport.Control.{Io}
use iracing_teleport.Protocol.Sender.{other, ok, err}
use iracing_teleport.Setup.{Net, target_setup}
use iracing_teleport.Setup.Calls.{
  Call, new_socket, set_send_buffer_size, set_recv_buffer_size, set_reuse_address, bind,
  set_nonblocking, set_read_timeout, connect, join_multicast, IsTracedAt, IsTraced, IsLogged,
  target_calls, target_setup-IsTraced,
}
use iracing_teleport.Target.Stub.{Files, spawn_stub, Renames, IsDecided, spawn_stub-IsDecided}

abbrev logs : Call → Io (List Call)
logs call w = (ok tt, w ++ (call ∷ []))

abbrev net : Net (List Call)
net = record {
  new_socket = logs new_socket;
  set_send_buffer_size = λ n. logs (set_send_buffer_size n);
  set_recv_buffer_size = λ n. logs (set_recv_buffer_size n);
  set_reuse_address = logs set_reuse_address;
  bind = λ a. logs (bind a);
  set_nonblocking = logs set_nonblocking;
  set_read_timeout = λ n. logs (set_read_timeout n);
  connect = λ a. logs (connect a);
  join_multicast = λ a w. (err other, w);
}

abbrev log : List Call → List Call
log w = w

logs-IsTraced : (call : Call) → IsTraced log (logs call) (call ∷ [])
logs-IsTraced call w = (λ _. refl, (call ∷ [], [], refl, refl))

no_join : (a : ℕ) → IsTraced log (net.join_multicast a) (join_multicast a ∷ [])
no_join a w = (λ h. absurd (fails h), ([], join_multicast a ∷ [], refl, sym (append-nil w)))
  where
    fails : (net.join_multicast a w).0 ≡ ok tt → ⊥
    fails h = cc

net-IsLogged : IsLogged log net
net-IsLogged = record {
  new_socket_logged = logs-IsTraced new_socket;
  send_buffer_logged = λ n. logs-IsTraced (set_send_buffer_size n);
  recv_buffer_logged = λ n. logs-IsTraced (set_recv_buffer_size n);
  reuse_logged = logs-IsTraced set_reuse_address;
  bind_logged = λ a. logs-IsTraced (bind a);
  nonblocking_logged = logs-IsTraced set_nonblocking;
  timeout_logged = λ n. logs-IsTraced (set_read_timeout n);
  connect_logged = λ a. logs-IsTraced (connect a);
  join_logged = no_join;
}

abbrev first_byte : List ℕ → Option ℕ
first_byte [] = none
first_byte (b ∷ bs) = some b

target_setup-IsTraced_example :
    IsTracedAt log []
      (target_setup net first_byte (1 ∷ []) (2 ∷ []) false false [])
      (target_calls log net net-IsLogged first_byte (1 ∷ []) (2 ∷ []) false false)
target_setup-IsTraced_example =
    target_setup-IsTraced log net net-IsLogged first_byte (1 ∷ []) (2 ∷ []) false false []

-- The state says whether the stub's file is there.
abbrev pub files : Files Bool
files = record {
  current_exe = λ w. true;
  copy = λ from to w. (ok tt, w);
  rename = λ from to w. (err other, w);
  remove_file = λ p w. (ok tt, w);
  exists = λ p w. w;
  spawn = λ p args w. (some 4711, w);
  kill = λ child w. (ok tt, w);
}

files-Renames : Renames files
files-Renames from to w h = absurd (fails h)
  where
    fails : (files.rename from to w).0 ≡ ok tt → ⊥
    fails h = cc

spawn_stub-IsDecided_example : IsDecided files (spawn_stub files true)
spawn_stub-IsDecided_example = spawn_stub-IsDecided files true files-Renames refl
