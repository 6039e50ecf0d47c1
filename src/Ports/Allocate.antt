-- ===== src/Ports/Allocate.antt =====
-- `allocate_port_from_pool`, `allocate_host_port` and `allocate_node_port` of
-- backend/app/containers/ports.py. `secrets.randbelow` is a parameter: `draw i n` is the i-th draw
-- below n. The ranges of backend/app/config.py come from the environment and are parameters too.
pub mod Exhaustion
use Prim.Native.Nat.{min}
use server_vps.Prelude.{
  ℕ, zero, suc, ◌+◌, ◌-◌, String, str_eq, Bool, true, false, not, ◌&&◌, ◌||◌, Option, none, some,
  List, [], ◌∷◌, map, ltb, leb, ◌==◌, if◌then◌else◌, select, exists, Result, ok, http_error, ◌>>=◌,
  ◌>>◌, raise_if,
}
use server_vps.Database.{ContainerPort}

-- The column that the f-string puts into the queries.
unfoldable pub column_value : String → ContainerPort → ℕ
column_value column port = if str_eq column "host_port" then port.host_port else port.node_port

-- The values of the column.
unfoldable pub used_ports : String → List ContainerPort → List ℕ
used_ports column ports = map (column_value column) ports

-- SELECT 1 FROM container_ports WHERE column = value
unfoldable pub is_used : List ℕ → ℕ → Bool
unfolding exists
is_used used value = exists (λ v. v == value) used

-- The loop over random candidates; `rounds` is what is left of `range(min(size, 2000))`.
unfoldable pub try_random : (ℕ → ℕ → ℕ) → List ℕ → ℕ → ℕ → ℕ → ℕ → Option ℕ
try_random draw used start size i zero = none
try_random draw used start size i (suc rounds) =
    let candidate = start + draw i size in
    let rest = try_random draw used start size (i + 1) rounds in
    if is_used used candidate then rest else some candidate

-- ORDER BY value LIMIT 1
unfoldable pub least : List ℕ → Option ℕ
least [] = none
least (x ∷ xs) = elim (least xs) [ none ↦ some x | some m ↦ some (if ltb m x then m else x) ]

-- The used ports of the range whose successor is free.
unfoldable pub gap_ends : List ℕ → ℕ → ℕ → List ℕ
gap_ends used start end = select (λ v. leb start v && leb v end && not (is_used used (v + 1))) used

-- What follows the random draws: the port after the lowest gap end, else `start`, else 409.
unfoldable pub first_free : List ℕ → ℕ → ℕ → Result ℕ
first_free used start end =
    let last = if is_used used start then http_error 409 else ok start in
    elim (least (gap_ends used start end)) [
      | none ↦ last
      | some v ↦ if leb (v + 1) end then ok (v + 1) else last
    ]

unfoldable pub draw_or_search : (ℕ → ℕ → ℕ) → List ℕ → ℕ → ℕ → Result ℕ
draw_or_search draw used start end =
    let size = end - start + 1 in
    elim (try_random draw used start size 0 (min size 2000)) [
      | some candidate ↦ ok candidate
      | none ↦ first_free used start end
    ]

unfoldable pub allocate_port_from_pool :
    (ℕ → ℕ → ℕ) → List ContainerPort → String → ℕ → ℕ → Result ℕ
allocate_port_from_pool draw ports column start end = do
  raise_if (not (str_eq column "host_port" || str_eq column "node_port")) 500
  raise_if (ltb start 1 || ltb 65535 end || ltb end start) 500
  draw_or_search draw (used_ports column ports) start end

-- The two ranges of config.py.
pub record Ranges : Type 0 where
  pub host_start : ℕ
  pub host_end : ℕ
  pub node_start : ℕ
  pub node_end : ℕ

unfoldable pub allocate_host_port : (ℕ → ℕ → ℕ) → Ranges → List ContainerPort → Result ℕ
allocate_host_port draw r ports =
    allocate_port_from_pool draw ports "host_port" r.host_start r.host_end

unfoldable pub allocate_node_port : (ℕ → ℕ → ℕ) → Ranges → List ContainerPort → Result ℕ
allocate_node_port draw r ports =
    allocate_port_from_pool draw ports "node_port" r.node_start r.node_end
