-- ===== src/Emulator/Describe.antt =====
-- `describe_address` and `describe_address_label28` of src/tools/hyppotest.c, which name an address in
-- the messages by a symbol. A name is a number, as in the table of symbols; what is printed is a value
-- of `Label` or `Place`.
pub mod Nearest
pub mod Exact
mod Tests
use mega65_core.Prelude.{
  ℕ, zero, suc, ◌-◌, Bool, true, false, ◌&&◌, leb, ltb, ◌==◌, if◌then◌else◌, Option, none, some,
}

-- The part of a table of symbols that is looked up.
pub record SymbolList : Type 0 where
  pub name : ℕ → ℕ
  pub addr : ℕ → ℕ
  pub count : ℕ

-- The two assignments to `match` in the body of the loop of `describe_address_label28`.
unfoldable pub closer_match : (ℕ → ℕ) → ℕ → ℕ → Option ℕ → Option ℕ
closer_match addrs target i none = if ltb (addrs i) target then some i else none
closer_match addrs target i (some m) =
    if ltb (addrs m) (addrs i) && ltb (addrs i) target then some i else some m

-- The loop, with `exact` and `match` as its result. `left` is the number of symbols from `i` on.
unfoldable pub match_label : (ℕ → ℕ) → ℕ → ℕ → ℕ → Option ℕ → Bool × Option ℕ
unfolding closer_match
match_label addrs target zero i match = (false, match)
match_label addrs target (suc left) i match =
    let rest = match_label addrs target left (suc i) (closer_match addrs target i match) in
    if target == addrs i then (true, some i) else rest

-- What it prints: nothing, the name, or the name and a distance.
pub data Label : Type 0 where
  no_label : Label
  at_symbol : ℕ → Label
  after_symbol : ℕ → ℕ → Label

unfoldable pub print_label : SymbolList → ℕ → Bool × Option ℕ → Label
print_label s target (exact, none) = no_label
print_label s target (true, some m) = at_symbol (s.name m)
print_label s target (false, some m) = after_symbol (s.name m) (target - s.addr m)

unfoldable pub label_in : SymbolList → ℕ → Label
unfolding print_label match_label closer_match
label_in s target = print_label s target (match_label s.addr target s.count 0 none)

-- The hypervisor has a table of its own, with the addresses $8000 to $BFFF.
unfoldable pub describe_address_label28 : SymbolList → SymbolList → ℕ → Label
unfolding label_in
describe_address_label28 hyppo symbols addr =
    if leb 0xfff8000 addr && ltb addr 0xfffc000
    then label_in hyppo (addr - 0xfff0000)
    else label_in symbols addr

-- The body of the loop of `describe_address`.
unfoldable pub keep_match : (ℕ → ℕ) → ℕ → ℕ → Option ℕ → Option ℕ
keep_match addrs target i none = if target == addrs i then some i else none
keep_match addrs target i (some m) =
    let s = if target == addrs i then i else m in
    if ltb (addrs s) (addrs i) && ltb (addrs i) target then some i else some s

unfoldable pub match_place : (ℕ → ℕ) → ℕ → ℕ → ℕ → Option ℕ → Option ℕ
unfolding keep_match
match_place addrs target zero i match = match
match_place addrs target (suc left) i match =
    match_place addrs target left (suc i) (keep_match addrs target i match)

-- What it prints beside the address: nothing, "first instruction in", or "at" with a distance.
pub data Place : Type 0 where
  nowhere : Place
  first_in : ℕ → Place
  inside : ℕ → ℕ → Place

unfoldable pub print_place : SymbolList → ℕ → Option ℕ → Place
print_place s target none = nowhere
print_place s target (some m) =
    if s.addr m == target then first_in (s.name m) else inside (s.name m) (target - s.addr m)

unfoldable pub describe_address : SymbolList → ℕ → Place
unfolding match_place print_place
describe_address hyppo addr =
    print_place hyppo addr (match_place hyppo.addr addr hyppo.count 0 none)
