-- ===== src/Server/Subscriptions/Table.antt =====
-- server.cpp: the table of subscriptions after a change.
use cxxmcp.Prelude.{
  ℕ, ◌≡◌, refl, Bool, true, false, ◌==◌, ◌&&◌, if◌then◌else◌, Bool-cases, inl, inr, Bytes, bytes_eq,
  bytes_eq_iff, List, [], ◌∷◌, arith,
}
use cxxmcp.Server.Subscriptions.{
  contains, insert_uri, erase_uri, Subscriptions, change, is_empty, erase_if_empty,
}

-- The sets of URIs.
contains-insert_uri :
    (uri asked : Bytes) (uris : List Bytes)
    → contains asked (insert_uri uri uris)
      ≡ (if bytes_eq uri asked then true else contains asked uris)
unfolding insert_uri contains
contains-insert_uri uri asked uris = ground (arith, bytes_eq_iff uri asked)

contains-erase_uri :
    (uri asked : Bytes) (uris : List Bytes)
    → contains asked (erase_uri uri uris)
      ≡ (if bytes_eq uri asked then false else contains asked uris)
unfolding erase_uri contains
contains-erase_uri uri asked [] = ground arith
contains-erase_uri uri asked (held ∷ uris) = ground (
  arith,
  contains-erase_uri uri asked uris,
  bytes_eq_iff held uri,
  bytes_eq_iff held asked,
  bytes_eq_iff uri asked,
)

-- Each transport stands in the table once, with a set that is not empty.
abbrev pub has_transport : ℕ → Subscriptions → Bool
has_transport transport [] = false
has_transport transport ((held, uris) ∷ rest) =
    let later = has_transport transport rest in if held == transport then true else later

abbrev pub IsTable : Subscriptions → Type 0
IsTable [] = Unit
IsTable ((held, uris) ∷ rest) =
    (has_transport held rest ≡ false) × (is_empty uris ≡ false) × IsTable rest

abbrev pub holds : ℕ → Bytes → Subscriptions → Bool
holds transport uri [] = false
holds transport uri ((held, uris) ∷ rest) =
    let later = holds transport uri rest in if held == transport then contains uri uris else later

pub has_transport-change :
    (t asked : ℕ) (f : List Bytes → List Bytes) (table : Subscriptions)
    → has_transport asked (change t f table)
      ≡ (if t == asked then true else has_transport asked table)
unfolding change
has_transport-change t asked f [] = refl
has_transport-change t asked f ((held, uris) ∷ rest) =
    ground (arith, has_transport-change t asked f rest)

has_transport-erase_if_empty :
    (t asked : ℕ) (table : Subscriptions)
    → has_transport asked table ≡ false
    → has_transport asked (erase_if_empty t table) ≡ false
unfolding erase_if_empty
has_transport-erase_if_empty t asked [] h = refl
has_transport-erase_if_empty t asked ((held, uris) ∷ rest) h =
    ground (arith, has_transport-erase_if_empty t asked rest)

is_empty-insert_uri : (uri : Bytes) (uris : List Bytes) → is_empty (insert_uri uri uris) ≡ false
unfolding insert_uri contains
is_empty-insert_uri uri [] = refl
is_empty-insert_uri uri (held ∷ uris) = ground arith

pub subscribe-IsTable :
    (t : ℕ) (uri : Bytes) (table : Subscriptions)
    → IsTable table
    → IsTable (change t (insert_uri uri) table)
unfolding change
subscribe-IsTable t uri [] h = (refl, is_empty-insert_uri uri [], tt)
subscribe-IsTable t uri ((held, uris) ∷ rest) h = ground (
  arith,
  subscribe-IsTable t uri rest,
  is_empty-insert_uri uri uris,
  has_transport-change t held (insert_uri uri) rest,
)

-- Unsubscribing is done in two steps over the same table.
abbrev pub unsubscribed : ℕ → Bytes → Subscriptions → Subscriptions
unsubscribed t uri table = erase_if_empty t (change t (erase_uri uri) table)

unsubscribed-cons :
    (t : ℕ) (uri : Bytes) (held : ℕ) (uris : List Bytes) (rest : Subscriptions)
    → unsubscribed t uri ((held, uris) ∷ rest) ≡ (
        if held == t
        then (if is_empty (erase_uri uri uris) then rest else (held, erase_uri uri uris) ∷ rest)
        else (held, uris) ∷ unsubscribed t uri rest)
unfolding change erase_if_empty
unsubscribed-cons t uri held uris rest = elim (Bool-cases (held == t)) [
  | inl e ↦ rw (e, erase_if_empty, e) refl
  | inr e ↦ rw (e, erase_if_empty, e) refl
]

pub has_transport-unsubscribed :
    (t asked : ℕ) (uri : Bytes) (table : Subscriptions)
    → has_transport asked table ≡ false
    → has_transport asked (unsubscribed t uri table) ≡ false
unfolding change erase_if_empty erase_uri
has_transport-unsubscribed t asked uri [] h = ground arith
has_transport-unsubscribed t asked uri ((held, uris) ∷ rest) h =
    rw (unsubscribed-cons t uri held uris rest)
      (ground (arith, has_transport-unsubscribed t asked uri rest))

pub unsubscribe-IsTable :
    (t : ℕ) (uri : Bytes) (table : Subscriptions)
    → IsTable table
    → IsTable (unsubscribed t uri table)
unfolding change erase_if_empty erase_uri
unsubscribe-IsTable t uri [] h = ground arith
unsubscribe-IsTable t uri ((held, uris) ∷ rest) h =
    rw (unsubscribed-cons t uri held uris rest)
      (ground (arith, unsubscribe-IsTable t uri rest, has_transport-unsubscribed t held uri rest))

pub contains_in_empty :
    (uri : Bytes) (uris : List Bytes) → is_empty uris ≡ true → contains uri uris ≡ false
unfolding contains
contains_in_empty uri [] h = refl
contains_in_empty uri (held ∷ uris) h = cc

pub holds_without :
    (t : ℕ) (uri : Bytes) (table : Subscriptions)
    → has_transport t table ≡ false
    → holds t uri table ≡ false
holds_without t uri [] h = refl
holds_without t uri ((held, uris) ∷ rest) h = ground (arith, holds_without t uri rest)

pub holds-subscribed :
    (t asked : ℕ) (uri wanted : Bytes) (table : Subscriptions)
    → holds asked wanted (change t (insert_uri uri) table)
      ≡ (if t == asked && bytes_eq uri wanted then true else holds asked wanted table)
unfolding change
holds-subscribed t asked uri wanted [] =
    ground (arith, contains-insert_uri uri wanted [], contains_in_empty wanted [])
holds-subscribed t asked uri wanted ((held, uris) ∷ rest) =
    ground (arith, contains-insert_uri uri wanted uris, holds-subscribed t asked uri wanted rest)

pub holds-unsubscribed :
    (t asked : ℕ) (uri wanted : Bytes) (table : Subscriptions)
    → IsTable table
    → holds asked wanted (unsubscribed t uri table)
      ≡ (if t == asked && bytes_eq uri wanted then false else holds asked wanted table)
unfolding change erase_if_empty erase_uri
holds-unsubscribed t asked uri wanted [] h = ground arith
holds-unsubscribed t asked uri wanted ((held, uris) ∷ rest) h =
    rw (unsubscribed-cons t uri held uris rest) (
      ground (
        arith,
        holds-unsubscribed t asked uri wanted rest,
        contains-erase_uri uri wanted uris,
        contains_in_empty wanted (erase_uri uri uris),
        holds_without held wanted rest,
      ))
