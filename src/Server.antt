-- ===== src/Server.antt =====
-- crates/subdex-graphql/src: the server's configuration (config.rs), the status query (status.rs), and
-- the routes with their health checks (server.rs). The routing of axum and what async-graphql makes
-- of a query are libraries; a router is the list of routes that it is given.
pub mod Status
use Prim.Native.String.{[] as empty, ◌∷◌ as ◌∷ˢ◌}
use Prim.Native.Char.{code}
use subdex.Prelude.{
  ℕ, String, ◌<>◌, Bool, true, false, ◌==◌, Option, List, [], ◌∷◌, ◌++◌, if◌then◌else◌,
}
use subdex.Store.Postgres.{I64, SqlResult, Sql}

pub data IpAddr : Type 0 where
  v4 : ℕ → ℕ → ℕ → ℕ → IpAddr
  v6 : List ℕ → IpAddr

pub record SocketAddr : Type 0 where
  pub ip : IpAddr
  pub port : ℕ

pub record GraphqlConfig : Type 0 where
  pub addr : SocketAddr
  pub path : String

-- `Ipv4Addr::UNSPECIFIED` and a port.
abbrev pub on_all : ℕ → SocketAddr
on_all port = record { ip = IpAddr.v4 0 0 0 0; port = port }

abbrev pub default_graphql : GraphqlConfig
default_graphql = record { addr = on_all 4350; path = "/graphql" }

abbrev pub on_port : ℕ → GraphqlConfig
on_port port = record default_graphql { addr = on_all port }

unfoldable pub starts_with_slash : String → Bool
starts_with_slash empty = false
starts_with_slash (c ∷ˢ s) = code c == 47

unfoldable pub with_path : String → GraphqlConfig → GraphqlConfig
with_path p config = record config { path = if starts_with_slash p then p else "/" <> p }

pub record IndexerStatus : Type 0 where
  pub height : Option I64
  pub hash : Option String
  pub spec_version : Option I64
  pub block_timestamp : Option I64
  pub indexed_blocks : I64

pub data Direction : Type 0 where
  ascending descending : Direction

-- `(SELECT column FROM subdex_block ORDER BY order_by … LIMIT 1)`, and `(SELECT count(*) FROM
-- subdex_block)`.
pub data Subselect : Type 0 where
  first : (column order_by : String) → Direction → Subselect
  count : Subselect

-- The pool, `fetch_one` of a `SELECT` of subqueries `AS` their names, and `try_get` of a row's column.
pub record StatusPool (Db : Type 0) : Type 1 where
  pub Row : Type 0
  pub select : List (Subselect × String) → Sql Db Row
  pub try_get_i64 : Row → String → SqlResult (Option I64)
  pub try_get_text : Row → String → SqlResult (Option String)
  pub try_get_count : Row → String → SqlResult I64

-- `?` on the error of sqlx.
module _ {A B : Type 0} where
  unfoldable pub and_then : SqlResult A → (A → SqlResult B) → SqlResult B
  and_then (SqlResult.done a) f = f a
  and_then (SqlResult.failed e) f = SqlResult.failed e

pub data Method : Type 0 where
  get post : Method

-- What answers at a route; the playground knows the path that it queries.
pub data Endpoint : Type 0 where
  healthz_route readyz_route query_route : Endpoint
  graphiql : String → Endpoint

pub record Route : Type 0 where
  pub method : Method
  pub path : String
  pub endpoint : Endpoint

abbrev pub router : GraphqlConfig → List Route
router config =
    record { method = get; path = "/healthz"; endpoint = healthz_route }
    ∷ record { method = get; path = config.path; endpoint = graphiql config.path }
    ∷ record { method = post; path = config.path; endpoint = query_route }
    ∷ []

abbrev pub router_with_health : GraphqlConfig → List Route
router_with_health config =
    router config ++ (record { method = get; path = "/readyz"; endpoint = readyz_route } ∷ [])

-- The bodies: the text `ok`, and the two JSON objects of `readyz`.
pub data Body : Type 0 where
  ok_text : Body
  ready : Option I64 → I64 → Body
  unavailable : String → Body

pub record Response : Type 0 where
  pub status : ℕ
  pub body : Body

abbrev pub healthz : Response
healthz = record { status = 200; body = ok_text }

-- The statement of `load_status`.
abbrev pub status_columns : List (Subselect × String)
status_columns =
    (Subselect.first "height" "height" Direction.descending, "height")
    ∷ (Subselect.first "hash" "height" Direction.descending, "hash")
    ∷ (Subselect.first "spec_version" "height" Direction.descending, "spec_version")
    ∷ (Subselect.first "timestamp" "height" Direction.descending, "block_timestamp")
    ∷ (Subselect.count, "indexed_blocks")
    ∷ []

module _ {Db : Type 0} (pool : StatusPool Db) where
  -- The columns of the row, in the order in which they are read.
  unfoldable pub status_of_row : pool.Row → SqlResult IndexerStatus
  unfolding and_then
  status_of_row row = and_then (pool.try_get_i64 row "height") λ height.
      and_then (pool.try_get_text row "hash") λ hash.
        and_then (pool.try_get_i64 row "spec_version") λ spec_version.
          and_then (pool.try_get_i64 row "block_timestamp") λ block_timestamp.
            and_then (pool.try_get_count row "indexed_blocks") λ indexed_blocks.
              SqlResult.done (record {
                height = height;
                hash = hash;
                spec_version = spec_version;
                block_timestamp = block_timestamp;
                indexed_blocks = indexed_blocks;
              })

  unfoldable pub load_status : Sql Db IndexerStatus
  load_status db = let (r, u) = pool.select status_columns db in (and_then r status_of_row, u)

  unfoldable pub ready_of : SqlResult IndexerStatus → Response
  ready_of (SqlResult.done s) = record { status = 200; body = ready s.height s.indexed_blocks }
  ready_of (SqlResult.failed e) = record { status = 503; body = unavailable e }

  unfoldable pub readyz : Db → Response × Db
  readyz db = let (r, u) = load_status db in (ready_of r, u)
