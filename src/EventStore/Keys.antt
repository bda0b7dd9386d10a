-- ===== src/EventStore/Keys.antt =====
-- The key under which `EventStore::insert` files a fragment.
use fnal_artdaq.Base.{ℕ, ◌+◌, ◌-◌, ◌*◌, ◌/◌, ◌%◌, ◌≤◌, ◌<◌, ◌≡◌, ◌↔◌, arith}
use fnal_artdaq.EventStore.{event_key, uint64_mod}

offset :
    (flushed seq : ℕ)
    → flushed < seq
    → seq < uint64_mod
    → (seq + uint64_mod - (1 + flushed) % uint64_mod) % uint64_mod ≡ seq - flushed - 1
offset flushed seq above fits = omega arith

div_le_self : (q m : ℕ) → 0 < m → q / m ≤ q
div_le_self q m pos = grind arith

block_div : (m j i : ℕ) → i < m → (j * m + i) / m ≡ j
block_div m j i small = grind arith

-- For a sequence ID above the last one flushed, the arithmetic of `uint64_t` does not wrap.
pub event_key_lem :
    (m flushed seq : ℕ)
    → 0 < m
    → flushed < seq
    → seq < uint64_mod
    → event_key m flushed seq ≡ (seq - flushed - 1) / m + 1
unfolding event_key
event_key_lem m flushed seq pos above fits =
    rw (offset flushed seq above fits) (omega (arith, div_le_self (seq - flushed - 1) m pos))

-- The keys 1, 2, 3, … stand for consecutive blocks of `m` sequence IDs after the last one flushed.
pub event_key_block :
    (m flushed j i : ℕ)
    → i < m
    → flushed + j * m + i + 1 < uint64_mod
    → event_key m flushed (flushed + j * m + i + 1) ≡ j + 1
event_key_block m flushed j i small fits =
    let e : flushed + j * m + i + 1 - flushed - 1 ≡ j * m + i = omega arith in
    rw (event_key_lem m flushed _ (omega arith) (omega arith) fits, e, block_div m j i small)

-- With the modulus 1 of an event builder, two fragments share a key exactly when they share a
-- sequence ID.
pub event_key_one :
    (flushed a b : ℕ)
    → flushed < a
    → flushed < b
    → a < uint64_mod
    → b < uint64_mod
    → (event_key 1 flushed a ≡ event_key 1 flushed b) ↔ (a ≡ b)
event_key_one flushed a b p q fa fb =
    rw (event_key_lem 1 flushed a (omega arith) p fa, event_key_lem 1 flushed b (omega arith) q fb)
      (λ h. omega arith, λ h. omega arith)
