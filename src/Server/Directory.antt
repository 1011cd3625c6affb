-- ===== src/Server/Directory.antt =====
-- What the server (tunnelproxyserver.cpp) promises to those who connect to it, without its tables:
-- a directory of who is connected as what. Its moves say how it may change.
pub mod Sound
pub mod Tables
use nymea_remoteproxy.Base.{
  ℕ, ◌≡◌, ◌≢◌, ◌∙◌, refl, sym, ap, Bool, true, false, Option, none, some, if◌then◌else◌, ◌==◌, Hash,
  value, value-insert, value-remove, insert, remove, arith, inl, inr, ◌⊎◌, Option-cases, Bool-cases,
}
use nymea_remoteproxy.Client.{type_none, type_server, type_client}
use nymea_remoteproxy.Connections.{TunnelProxyClientConnection}
use nymea_remoteproxy.Server.View.{View, Role}

-- A socket that is connected: it has not registered, or is a server, or is a client of a server,
-- which may be gone.
pub data Party : Type 0 where
  unregistered : Party
  serving : ℕ → Party
  visiting : ℕ → Option ℕ → Party

abbrev pub Directory : Type 0
Directory = ℕ → Option Party

abbrev pub nobody : Directory
nobody id = none

-- The uuid that a socket goes by.
abbrev pub uuid_in : Option Party → Option ℕ
uuid_in (some (serving u)) = some u
uuid_in (some (visiting u x)) = some u
uuid_in _ = none

abbrev pub IsUnused : Directory → ℕ → Type 0
IsUnused d u = (j : ℕ) → uuid_in (d j) ≢ some u

-- A client of the server x loses it.
abbrev pub without_server : ℕ → Option Party → Option Party
without_server x (some (visiting u (some y))) =
    if y == x then some (visiting u none) else some (visiting u (some y))
without_server x p = p

-- How a directory may change: a socket arrives; one that has not registered becomes a server, or a
-- client of a server that is connected, under a uuid that nobody goes by; a socket that is no server
-- leaves; a server leaves, and its clients stay without one.
pub data Move (d d' : Directory) : Type 0 where
  arrives :
      (id : ℕ)
      → d id ≡ none
      → ((j : ℕ) → d' j ≡ (if id == j then some unregistered else d j))
      → Move d d'
  becomes_server :
      (id u : ℕ)
      → d id ≡ some unregistered
      → IsUnused d u
      → ((j : ℕ) → d' j ≡ (if id == j then some (serving u) else d j))
      → Move d d'
  becomes_client :
      (id u x k : ℕ)
      → d id ≡ some unregistered
      → IsUnused d u
      → d k ≡ some (serving x)
      → ((j : ℕ) → d' j ≡ (if id == j then some (visiting u (some x)) else d j))
      → Move d d'
  leaves :
      (id : ℕ)
      → ((u : ℕ) → d id ≢ some (serving u))
      → ((j : ℕ) → d' j ≡ (if id == j then none else d j))
      → Move d d'
  server_leaves :
      (id x : ℕ)
      → d id ≡ some (serving x)
      → ((j : ℕ) → d' j ≡ (if id == j then none else without_server x (d j)))
      → Move d d'

pub data Moves (d : Directory) : Directory → Type 0 where
  stays : Moves d d
  moves : {d' d'' : Directory} → Moves d d' → Move d' d'' → Moves d d''

pub Moves-trans : {d d' d'' : Directory} → Moves d d' → Moves d' d'' → Moves d d''
Moves-trans m stays = m
Moves-trans m (moves n step) = moves (Moves-trans m n) step

-- The directory of the tables.
abbrev pub link_to : Option TunnelProxyClientConnection → Option ℕ
link_to none = none
link_to (some c) = c.server_connection

abbrev pub party_of : Hash TunnelProxyClientConnection → Option Role → Option Party
party_of clients none = none
party_of clients (some (type_none, u)) = some unregistered
party_of clients (some (type_server, u)) = some (serving u)
party_of clients (some (type_client, u)) = some (visiting u (link_to (value clients u)))

abbrev pub directory : View → Directory
directory v id = party_of v.clients (v.role id)

-- What a directory that was empty once promises: no two sockets go by one uuid, and the server of a
-- client is connected.
pub record IsSound (d : Directory) : Type 0 where
  pub one_each : (i j u : ℕ) → uuid_in (d i) ≡ some u → uuid_in (d j) ≡ some u → i ≡ j
  pub served : (i u x : ℕ) → d i ≡ some (visiting u (some x)) → (k : ℕ) × (d k ≡ some (serving x))
