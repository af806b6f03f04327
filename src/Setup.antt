-- ===== src/Setup.antt =====
-- The start of `run` in teleport/src/source.rs and teleport/src/target.rs: how the socket is set up. The
-- calls of the network and the parsing of addresses are parameters.
pub mod Calls
use iracing_teleport.Base.{ℕ, ◌*◌, List, Bool, Option, none, some, if◌then◌else◌}
use iracing_teleport.Control.{Io, ◌>>◌}
use iracing_teleport.Protocol.Sender.{other, ok, err}

-- An address is a number.
pub record Net (W : Type 0) : Type 0 where
  pub new_socket : Io W
  pub set_send_buffer_size : ℕ → Io W
  pub set_recv_buffer_size : ℕ → Io W
  pub set_reuse_address : Io W
  pub bind : ℕ → Io W
  pub set_nonblocking : Io W
  pub set_read_timeout : ℕ → Io W
  pub connect : ℕ → Io W
  pub join_multicast : ℕ → Io W

-- Nothing to do.
unfoldable pub done : {W : Type 0} → Io W
done w = (ok tt, w)

-- `parse().map_err(..)?`
unfoldable pub with_address : {W : Type 0} → Option ℕ → (ℕ → Io W) → Io W
with_address none k w = (err other, w)
with_address (some address) k w = k address w

module _ {W : Type 0} (net : Net W) (parse : List ℕ → Option ℕ) where
  unfoldable pub source_setup : List ℕ → List ℕ → Bool → Io W
  source_setup bind target unicast =
      net.new_socket
      >> net.set_send_buffer_size (2 * 1024 * 1024)
      >> with_address (parse bind) net.bind
      >> net.set_nonblocking
      >> with_address (parse target) (λ address. if unicast then net.connect address else done)

  unfoldable pub target_setup : List ℕ → List ℕ → Bool → Bool → Io W
  target_setup bind group unicast busy_wait =
      net.new_socket
      >> net.set_recv_buffer_size (2 * 1024 * 1024)
      >> net.set_reuse_address
      >> with_address (parse bind) net.bind
      >> (if busy_wait then net.set_nonblocking else net.set_read_timeout 1)
      >> (if unicast then done else with_address (parse group) net.join_multicast)
