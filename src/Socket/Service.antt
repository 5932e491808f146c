-- ===== src/Socket/Service.antt =====
-- `Service` and `AddressToHostString` of CSocket.cpp.
use epics_tcl.Prelude.{
  ℕ, suc, ◌+◌, ◌-◌, ◌*◌, ◌%◌, ◌^◌, String, Bool, ◌&&◌, ◌||◌, Option, none, some, leb, nat_eq,
  if◌then◌else◌,
}
use Prim.Native.Char.{Char, code}
use mathlib.Core.Option
use epics_tcl.Prelude.Int.{ℤ, pos, negsuc}
use epics_tcl.Socket.Os.{Os, no_such_service}
use epics_tcl.Socket.Act.{Act, pure, raise, call, ◌>>=◌}
use epics_tcl.Socket.ByteOrder.{htons}

abbrev is_digit : Char → Bool
is_digit c = leb 48 (code c) && leb (code c) 57

abbrev is_space : Char → Bool
is_space c = nat_eq (code c) 32 || (leb 9 (code c) && leb (code c) 13)

-- The digits at the head of a text, after the number `acc`.
unfoldable pub scan_digits : ℕ → String → ℕ
scan_digits acc String.[] = acc
scan_digits acc (String.◌∷◌ c s) =
    let rest = scan_digits (acc * 10 + (code c - 48)) s in if is_digit c then rest else acc

-- A number with at least one digit.
unfoldable pub scan_nat : String → Option ℕ
unfolding scan_digits
scan_nat String.[] = none
scan_nat (String.◌∷◌ c s) = if is_digit c then some (scan_digits (code c - 48) s) else none

abbrev negate : ℕ → ℤ
negate n = elim n [ Prim.Native.Nat.zero ↦ pos 0 | suc m ↦ negsuc m ]

-- `sscanf("%d")`, where the number fits an `int`: blanks, a sign or none, and digits; what follows is
-- not looked at.
unfoldable pub scan_int : String → Option ℤ
unfolding scan_nat
scan_int String.[] = none
scan_int (String.◌∷◌ c s) =
    let later = scan_int s in
    if is_space c
    then later
    else if nat_eq (code c) 45
    then Option.map negate (scan_nat s)
    else if nat_eq (code c) 43
    then Option.map pos (scan_nat s)
    else Option.map pos (scan_nat (String.◌∷◌ c s))

-- An `int` converted to an `unsigned short`.
abbrev pub to_ushort : ℤ → ℕ
to_ushort (pos n) = n % 2 ^ 16
to_ushort (negsuc n) = (2 ^ 16 - suc n % 2 ^ 16) % 2 ^ 16

module _ (O : Os) where
  -- The port is in network byte order.
  unfoldable pub service : String → Act O ℕ
  unfolding scan_int
  service name = elim (scan_int name) [
    | none ↦ do
      entry ← call (O.getservbyname name)
      elim entry [ none ↦ raise (no_such_service name) | some port ↦ pure port ]
    | some number ↦ pure (htons (to_ushort number))
  ]

  unfoldable pub address_to_host_string : ℕ → Act O String
  address_to_host_string peer = do
    entry ← call (O.gethostbyaddr peer)
    pure (elim entry [ none ↦ O.inet_ntoa peer | some name ↦ name ])
