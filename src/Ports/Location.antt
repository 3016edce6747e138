-- ===== src/Ports/Location.antt =====
-- server/platform-linux.cpp: get_id_from_usb_location, the identifier of a port made of its place on the USB. `readlink` is a
-- parameter: `none` is a result that is not above 0. An int is its 32-bit pattern. The names and links are taken to fit
-- their buffers, which the source does not test for a link of 256 characters.
pub mod Numbered
use xibridge.Prelude.{
  ℕ, ◌+◌, ◌*◌, ◌-◌, ◌%◌, ◌^◌, Bool, true, false, not, ◌&&◌, List, [], ◌∷◌, ◌++◌, Option, none, some,
  if◌then◌else◌, ltb, leb, ◌==◌, take, drop, same_bytes, codes,
}
use xibridge.Uri.Scan.{skip_spaces}

-- `strchr` and `strrchr`: the texts before and behind the first or the last `c`.
abbrev pub with_front : ℕ → Option (List ℕ × List ℕ) → Option (List ℕ × List ℕ)
with_front a none = none
with_front a (some (front, back)) = some (a ∷ front, back)

abbrev pub split_first : ℕ → List ℕ → Option (List ℕ × List ℕ)
split_first c [] = none
split_first c (a ∷ s) = if a == c then some ([], s) else with_front a (split_first c s)

abbrev pub here_or : ℕ → ℕ → List ℕ → Option (List ℕ × List ℕ) → Option (List ℕ × List ℕ)
here_or c a s none = if a == c then some ([], s) else none
here_or c a s (some (front, back)) = some (a ∷ front, back)

abbrev pub split_last : ℕ → List ℕ → Option (List ℕ × List ℕ)
split_last c [] = none
split_last c (a ∷ s) = here_or c a s (split_last c s)

abbrev pub behind : Option (List ℕ × List ℕ) → Option (List ℕ)
behind none = none
behind (some (front, back)) = some back

abbrev pub front_or_all : List ℕ → Option (List ℕ × List ℕ) → List ℕ
front_or_all s none = s
front_or_all s (some (front, back)) = front

abbrev pub back_or_all : List ℕ → Option (List ℕ × List ℕ) → List ℕ
back_or_all s none = s
back_or_all s (some (front, back)) = back

-- `sscanf(s, "%d", &n)`; a number that does not fit an int is cut to 32 bits.
abbrev pub is_digit : ℕ → Bool
is_digit c = leb 48 c && leb c 57

abbrev pub decimal : ℕ → List ℕ → ℕ
decimal acc [] = acc
decimal acc (c ∷ s) = let rest = decimal (acc * 10 + (c - 48)) s in if is_digit c then rest else acc

abbrev pub scan_unsigned_decimal : List ℕ → Option ℕ
scan_unsigned_decimal [] = none
scan_unsigned_decimal (c ∷ s) = if is_digit c then some (decimal 0 (c ∷ s) % 2 ^ 32) else none

abbrev pub negative : Option ℕ → Option ℕ
negative none = none
negative (some n) = some ((2 ^ 32 - n) % 2 ^ 32)

abbrev pub scan_signed_decimal : List ℕ → Option ℕ
scan_signed_decimal [] = none
scan_signed_decimal (c ∷ s) =
    if c == 43
    then scan_unsigned_decimal s
    else if c == 45
    then negative (scan_unsigned_decimal s)
    else scan_unsigned_decimal (c ∷ s)

unfoldable pub scan_decimal : List ℕ → Option ℕ
scan_decimal s = scan_signed_decimal (skip_spaces s)

-- The text behind `pusb` and, where there is one, behind `phub`.
abbrev pub usb_and_hub : List ℕ → Option (List ℕ × List ℕ) → Option (List ℕ) × Option (List ℕ)
usb_and_hub start none = (behind (split_first 45 start), none)
usb_and_hub start (some (front, back)) = (some back, behind (split_last 46 front))

abbrev pub or_zero : Option ℕ → ℕ
or_zero none = 0
or_zero (some n) = n

abbrev pub is_scanned : Option ℕ → Bool
is_scanned none = false
is_scanned (some n) = true

abbrev pub scan_at : Option (List ℕ) → Option ℕ
scan_at none = none
scan_at (some s) = scan_decimal s

-- The number of the port and `ok`, and from them that of the hub.
abbrev pub hub_number : Option (List ℕ) → Bool → ℕ × Bool
hub_number none ok = (0, ok)
hub_number (some s) ok =
    if ok then (or_zero (scan_decimal s), is_scanned (scan_decimal s)) else (0, false)

unfoldable pub location_id : ℕ → ℕ → ℕ
location_id hub ndev =
    let hub_from_0 = if hub == 0 then 0 else (hub + 2 ^ 32 - 1) % 2 ^ 32 in
    let id = (hub_from_0 * 4 + ndev) % 2 ^ 32 in if ltb 9 id then (id + 6) % 2 ^ 32 else id

abbrev pub numbered : Option (List ℕ) × Option (List ℕ) → ℕ × Bool
numbered (usb, hub) =
    let (nhub, ok) = hub_number hub (is_scanned (scan_at usb)) in
    (location_id nhub (or_zero (scan_at usb)), ok)

-- What a link says: the identifier and `ok`.
unfoldable pub id_of_link : List ℕ → ℕ × Bool
id_of_link link =
    let name = back_or_all link (split_last 47 link) in
    let start = front_or_all name (split_first 58 name) in
    numbered (usb_and_hub start (split_last 46 start))

abbrev pub of_link : Option (List ℕ) → ℕ × Bool
of_link none = (0, false)
of_link (some link) = id_of_link link

unfoldable pub get_id_from_usb_location : (List ℕ → Option (List ℕ)) → List ℕ → ℕ × Bool
get_id_from_usb_location readlink sp_port_name =
    if same_bytes (take 5 sp_port_name) (codes "/dev/")
    then of_link (readlink (codes "/sys/class/tty/" ++ (drop 5 sp_port_name ++ codes "/device")))
    else (0, false)
