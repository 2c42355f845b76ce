-- ===== src/WebServer/Conn.antt =====
-- A connection of socket/pool/http_conn.cpp at its place in the table, and that init and close_conn
-- leave it there.
use unix_programming.Base.{
  ℕ, ◌≡◌, refl, sym, subst, Bool, Option, none, some, arith, length-replicate,
}
use unix_programming.HttpConn.{HttpConn}
use unix_programming.HttpConn.Connection.{Server, init, init_conn, close_conn}
use unix_programming.HttpConn.ReadMachine.Ends.{IsConn}

-- m_sockfd is -1, or the descriptor that is the connection's index
abbrev pub Own : ℕ → Option ℕ → Type 0
Own fd none = Unit
Own fd (some x) = x ≡ fd

-- the connection at the index `fd`, with its indices into its buffer in order
pub record Placed (fd : ℕ) (c : HttpConn) : Type 0 where
  pub conn : IsConn c
  pub own : Own fd c.sockfd

pub init-IsConn : (c : HttpConn) → IsConn (init c)
unfolding init
init-IsConn c = record {
  size = length-replicate {A = ℕ} 2048 0;
  start = omega arith;
  checked = omega arith;
  read = omega arith;
}

pub init_conn-Placed : (fd : ℕ) (c : HttpConn) (w : Server) → Placed fd (init_conn fd c w).0
unfolding init_conn init
init_conn-Placed fd c w = record { conn = init-IsConn (record c { sockfd = some fd }); own = refl }

pub kept-Placed :
    (fd : ℕ) (c d : HttpConn) → Placed fd c → IsConn d → d.sockfd ≡ c.sockfd → Placed fd d
kept-Placed fd c d h valid same = record { conn = valid; own = subst (Own fd) (sym same) h.own }

pub close_conn-Placed :
    (fd : ℕ) (b : Bool) (c : HttpConn) (w : Server) → Placed fd c → Placed fd (close_conn b c w).0
unfolding close_conn
close_conn-Placed fd b c w h = record { conn = ground arith; own = ground arith }
