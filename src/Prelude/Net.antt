-- ===== src/Prelude/Net.antt =====
-- `net.IP`: 4 bytes or 16 bytes; a nil one is empty. `To4` and `To16` of Go's `net`.
use Prim.Native.Nat.{ℕ}
use mathlib.Core.Bool.{◌&&◌}
use mathlib.Core.Option.{Option, none, some}
use mathlib.Core.List.{[], ◌∷◌, ◌++◌}
use p2p_gossip_lb.Prelude.Tests.{◌==◌, if◌then◌else◌}
use p2p_gossip_lb.Prelude.Lists.{length}
use p2p_gossip_lb.Prelude.Text.{Text, text_eq}

abbrev first_n : ℕ → Text → Text
first_n n [] = []
first_n Prim.Native.Nat.zero (x ∷ xs) = []
first_n (Prim.Native.Nat.suc n) (x ∷ xs) = x ∷ first_n n xs

abbrev pub drop_n : ℕ → Text → Text
drop_n n [] = []
drop_n Prim.Native.Nat.zero (x ∷ xs) = x ∷ xs
drop_n (Prim.Native.Nat.suc n) (x ∷ xs) = drop_n n xs

-- the prefix of an IPv4 address in 16 bytes
abbrev pub v4_in_v6 : Text
v4_in_v6 = 0 ∷ 0 ∷ 0 ∷ 0 ∷ 0 ∷ 0 ∷ 0 ∷ 0 ∷ 0 ∷ 0 ∷ 255 ∷ 255 ∷ []

unfoldable pub to4 : Text → Option Text
to4 ip =
    if length ip == 4
    then some ip
    else if length ip == 16 && text_eq (first_n 12 ip) v4_in_v6
    then some (drop_n 12 ip)
    else none

unfoldable pub to16 : Text → Option Text
to16 ip =
    if length ip == 4 then some (v4_in_v6 ++ ip) else if length ip == 16 then some ip else none
