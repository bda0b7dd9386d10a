-- ===== src/Aggregator/Clients.antt =====
-- artdaq/Application/MPI2/AggregatorCore.cc: the list of XMLRPC clients, by groups.
use Prim.Native.String.{String}
use text.Mathlib.Text.{◌==◌ as str_eq}
use fnal_artdaq.Base.{ℕ, zero, suc, List, [], ◌∷◌, ◌++◌, Option, none, some, if◌then◌else◌}
use fnal_artdaq.Generator.{ℤ, pos, negsuc}

-- What the code uses of Boost: the tokens of a string that a `char_separator` finds, and
-- `lexical_cast<int>`, `none` where it throws.
pub record Boost : Type 0 where
  pub tokens : String → String → List String
  pub to_int : String → Option ℤ

-- The list grows until it has the group, and the URL goes to the end of it.
unfoldable pub add_url : ℕ → String → List (List String) → List (List String)
add_url zero url [] = (url ∷ []) ∷ []
add_url zero url (group ∷ lists) = (group ++ url ∷ []) ∷ lists
add_url (suc n) url [] = [] ∷ add_url n url []
add_url (suc n) url (group ∷ lists) = group ∷ add_url n url lists

module _ (boost : Boost) where
  -- The URL and the group of an element, and what follows them is not used.
  unfoldable pub client_of : List String → String × Option ℤ
  client_of [] = ("", none)
  client_of (url ∷ []) = (url, none)
  client_of (url ∷ group ∷ _) = (url, boost.to_int group)

  unfoldable pub add_client : String → List (List String) → List (List String)
  unfolding client_of add_url
  add_client element lists =
      let (url, group) = client_of (boost.tokens "," element) in
      elim group [
        | none ↦ lists
        | some g ↦ elim g [
          | negsuc n ↦ lists
          | pos n ↦ if str_eq url "" then lists else add_url n url lists
        ]
      ]

  unfoldable pub add_clients : List String → List (List String) → List (List String)
  unfolding add_client
  add_clients [] lists = lists
  add_clients (element ∷ more) lists = add_clients more (add_client element lists)

  unfoldable pub client_lists : String → List (List String) → List (List String)
  unfolding add_clients
  client_lists string lists =
      if str_eq string "" then lists else add_clients (boost.tokens ";" string) []
