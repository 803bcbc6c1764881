-- ===== src/Config/Servers.antt =====
-- What the servers of the two reporting threads are to hold, in src/main.c and src/jodie_client.c.
use vmars.Prelude.{
  ℕ, ◌+◌, ◌*◌, ◌/◌, ◌%◌, ◌^◌, ◌≡◌, ◌≢◌, refl, List, Option, none, some, arith, ◌==◌, if◌then◌else◌,
}
use vmars.Prelude.Int.{ℤ, negsuc}
use vmars.Jodie.Defs.{Server, jodie_init, jodie_dup}

-- A server for `host` and `port`, in memory that held `before`: without an address it is left as it
-- was; otherwise it has the address, the port in the order of the network (41000 for 0) and the
-- socket, and an empty buffer if there is a socket.
pub record IsServer (inet_aton : List ℕ → Option ℕ) (socket : ℤ) (host : List ℕ) (port : ℕ)
    (before server : Server) : Type 0 where
  pub unnamed : inet_aton host ≡ none → server ≡ before
  pub sin_addr : (addr : ℕ) → inet_aton host ≡ some addr → server.sin_addr ≡ addr
  pub sin_port :
      (addr : ℕ)
      → inet_aton host ≡ some addr
      → server.sin_port % 256 * 256 + server.sin_port / 256
        ≡ (if port == 0 then 41000 else port) % 2 ^ 16
  pub jodie_socket : (addr : ℕ) → inet_aton host ≡ some addr → server.jodie_socket ≡ socket
  pub send_index :
      (addr : ℕ) → inet_aton host ≡ some addr → socket ≢ negsuc 0 → server.jodie.send_index ≡ 0
  pub send_buffer :
      (addr : ℕ)
      → inet_aton host ≡ some addr
      → socket ≢ negsuc 0
      → (i : ℕ) → server.jodie.send_buffer i ≡ 0

pub jodie_init-IsServer :
    (inet_aton : List ℕ → Option ℕ) (socket : ℤ) (host : List ℕ) (port : ℕ) (before : Server)
    → IsServer inet_aton socket host port before (jodie_init inet_aton socket host port before).1
unfolding jodie_init
jodie_init-IsServer inet_aton socket host port before = record {
  unnamed = λ e. rw (jodie_init, e) refl;
  sin_addr = λ addr e. ground arith;
  sin_port = λ addr e. ground arith;
  jodie_socket = λ addr e. ground arith;
  send_index = λ addr e open_socket. ground arith;
  send_buffer = λ addr e open_socket i. ground arith;
}

-- What the counter thread's server has of the latency thread's, and of its own memory.
pub record IsCopy (src memory copy : Server) : Type 0 where
  pub sin_addr : copy.sin_addr ≡ src.sin_addr
  pub sin_port : copy.sin_port ≡ src.sin_port
  pub jodie_socket : copy.jodie_socket ≡ src.jodie_socket
  pub send_index : copy.jodie.send_index ≡ src.jodie.send_index
  pub send_buffer : copy.jodie.send_buffer ≡ memory.jodie.send_buffer

pub jodie_dup-IsCopy : (src dst : Server) → IsCopy src dst (jodie_dup src dst)
unfolding jodie_dup
jodie_dup-IsCopy src dst = record {
  sin_addr = refl;
  sin_port = refl;
  jodie_socket = refl;
  send_index = refl;
  send_buffer = refl;
}
