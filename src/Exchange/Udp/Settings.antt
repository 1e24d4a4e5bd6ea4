-- ===== src/Exchange/Udp/Settings.antt =====
-- The settings of `UdpExchange` of kernel/block_class/udp_exchange.hpp, and its joining with a block.
use func_sim_engine.Prelude.{
  ℕ, Bool, true, false, Option, none, some, List, [], ◌∷◌, ◌++◌, map, Str, if◌then◌else◌,
}
use func_sim_engine.StdMap.{Map}
use func_sim_engine.Param.Real.{Floats}
use func_sim_engine.Subprogram.{Function, FunctionStorage}
use func_sim_engine.Tree.{Tree}
use func_sim_engine.BlockClass.{BlockClass, Opening, opened, caught, escaped, join_with_block}
use func_sim_engine.Exchange.Udp.{InetBuffer}

-- `InetAddress`
pub record InetAddress : Type 0 where
  pub ip : Str
  pub port : ℕ

abbrev pub inet_address : InetAddress
inet_address = record { ip = []; port = 0 }

-- `_is_server`, `_addr`, `_buf`, `_priority`.
pub record UdpSettings (D : Type 0) : Type 0 where
  pub is_server : Bool
  pub addr : InetAddress
  pub buf : Map ℕ InetBuffer
  pub priority : D

-- The constructor.
unfoldable pub udp_exchange : {D : Type 0} ⦃fl : Floats D⦄ → UdpSettings D
udp_exchange ⦃fl⦄ = record { is_server = false; addr = inet_address; buf = []; priority = fl.zero }

module _ {D : Type 0} where
  unfoldable pub set_address : InetAddress → UdpSettings D → UdpSettings D
  set_address addr u = record u { addr = addr }

  unfoldable pub set_direction_input : UdpSettings D → UdpSettings D
  set_direction_input u = record u { is_server = true }

  unfoldable pub set_direction_output : UdpSettings D → UdpSettings D
  set_direction_output u = record u { is_server = false }

  unfoldable pub set_buffers : Map ℕ InetBuffer → UdpSettings D → UdpSettings D
  set_buffers buf u = record u { buf = buf }

  unfoldable pub set_exchange_priority : D → UdpSettings D → UdpSettings D
  set_exchange_priority priority u = record u { priority = priority }

-- The creation of the server or of the client; `trouble` is what its exception says, if it throws
-- one. That of a client is not caught.
abbrev pub opening_of : {D : Type 0} → UdpSettings D → Option Str → Opening
opening_of u none = opened
opening_of u (some text) = if u.is_server then caught text else escaped

-- The variables that `validate_with_block` asks for: those of each buffer, in turn.
unfoldable pub exchanged_names : Map ℕ InetBuffer → List Str
exchanged_names [] = []
exchanged_names ((k, b) ∷ bs) = map (λ v. v.name) b.vars ++ exchanged_names bs

module _ {D W : Type 0} ⦃fl : Floats D⦄ where
  -- `get_subprog`: the function that is stored.
  unfoldable pub subprog_function : UdpSettings D → Function D W → Function D W → Function D W
  subprog_function u input_vars output_vars = if u.is_server then input_vars else output_vars

  -- `join_with_block`; `none` is an exception that leaves it.
  unfoldable pub join_udp :
      UdpSettings D
      → Option Str
      → ℕ
      → Function D W
      → Function D W
      → Str
      → Str
      → Tree D × BlockClass D × FunctionStorage D W
      → Option ((Tree D × BlockClass D × FunctionStorage D W) × Bool)
  unfolding exchanged_names subprog_function join_with_block
  join_udp u trouble start input_vars output_vars address suffix s =
      join_with_block (exchanged_names u.buf) (opening_of u trouble) start
        (subprog_function u input_vars output_vars) u.priority address suffix s
