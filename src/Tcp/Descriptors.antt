-- ===== src/Tcp/Descriptors.antt =====
-- The table of mysocket descriptors of mysock.c. A context is known by its address and carries its
-- descriptor; the context that _mysock_allocate_context makes is an argument.
pub mod Table
use computer_network.Prelude.{
  ℕ, zero, suc, ◌+◌, Bool, true, false, List, [], ◌∷◌, Option, none, some, ◌==◌, if◌then◌else◌,
  replicate,
}

-- MAX_NUM_CONNECTIONS
abbrev pub max_num_connections : ℕ
max_num_connections = 64

-- The fields of mysock_context_t that the table reads, with the address of the context.
pub record MysockContext : Type 0 where
  pub address : ℕ
  pub my_sd : ℕ

-- global_ctx
abbrev pub Descriptors : Type 0
Descriptors = List (Option MysockContext)

abbrev pub no_descriptors : Descriptors
no_descriptors = replicate max_num_connections none

-- The search for a free descriptor, from `k` on.
unfoldable pub place_context : ℕ → ℕ → Descriptors → Option (ℕ × Descriptors)
place_context address k [] = none
place_context address k (some ctx ∷ rest) = elim (place_context address (suc k) rest) [
  | none ↦ none
  | some found ↦ some (found.0, some ctx ∷ found.1)
]
place_context address k (none ∷ rest) =
    some (k, some (record { address = address; my_sd = k }) ∷ rest)

-- _mysock_new_mysocket; none is -1.
unfoldable pub mysock_new_mysocket : ℕ → Descriptors → Option (ℕ × Descriptors)
mysock_new_mysocket address table = place_context address 0 table

-- _mysock_get_context
unfoldable pub mysock_get_context : ℕ → Descriptors → Option MysockContext
mysock_get_context sd [] = none
mysock_get_context zero (entry ∷ rest) = entry
mysock_get_context (suc sd) (entry ∷ rest) = mysock_get_context sd rest

-- The entry at a descriptor, cleared if it is this context.
unfoldable pub clear_entry : MysockContext → ℕ → Descriptors → Descriptors
clear_entry ctx sd [] = []
clear_entry ctx zero (none ∷ rest) = none ∷ rest
clear_entry ctx zero (some other ∷ rest) =
    if other.address == ctx.address then none ∷ rest else some other ∷ rest
clear_entry ctx (suc sd) (entry ∷ rest) = entry ∷ clear_entry ctx sd rest

-- What _mysock_free_context does to the table.
unfoldable pub mysock_free_context : MysockContext → Descriptors → Descriptors
mysock_free_context ctx table = clear_entry ctx ctx.my_sd table
