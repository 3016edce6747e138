-- ===== src/DeviceMap/Keys.antt =====
-- common/protocols.h: where `operator <` of DevId orders some identifiers. A std::map promises the entry of a key only
-- where the operator is a strict order of its keys and of the key sought. That of DevId is not one for all identifiers; it is one for
-- devices of one maker and model, which differ in the id alone.
use xibridge.Prelude.{Bool, true, not, ◌&&◌, ◌||◌, List, [], ◌∷◌}
use xibridge.DevId.{DevId, dev_lt}

-- Not both of two identifiers are below the other, and what is below an identifier is below all that it is below.
-- Where no identifier is below another, they are the same key for all the others.
abbrev apart : DevId → DevId → Bool
apart a b = not (dev_lt a b && dev_lt b a)

abbrev follows : DevId → DevId → DevId → Bool
follows a b c =
    (not (dev_lt a b && dev_lt b c) || dev_lt a c)
    && (dev_lt a b || (dev_lt b c || not (dev_lt a c)))

abbrev all_follow : DevId → DevId → List DevId → Bool
all_follow a b [] = true
all_follow a b (c ∷ ds) = follows a b c && all_follow a b ds

abbrev ordered_from : DevId → List DevId → List DevId → Bool
ordered_from a [] all = true
ordered_from a (b ∷ ds) all = (apart a b && all_follow a b all) && ordered_from a ds all

abbrev ordered_in : List DevId → List DevId → Bool
ordered_in [] all = true
ordered_in (a ∷ ds) all = ordered_from a all all && ordered_in ds all

-- `operator <` is a strict weak order of the identifiers of a list.
unfoldable pub is_ordered : List DevId → Bool
is_ordered ds = ordered_in ds ds
