-- ===== src/Start.antt =====
-- server/xibridge_server.cpp and server/xibridge_server_lib.cpp: the command line of the server, and the choices that
-- server_main makes by it. The key file is always a null pointer and is left out. Texts are lists of characters;
-- `tolower` is that of the locale "C". The loop that waits while the server runs, the signals and the prints are not
-- modelled, nor is the code for Mac OS.
pub mod Modes
use xibridge.Prelude.{
  ℕ, ◌+◌, Bool, true, false, not, ◌&&◌, ◌||◌, List, [], ◌∷◌, Option, none, some, if◌then◌else◌, leb,
  ltb, length, same_bytes, codes,
}
use xibridge.Ports.{DevId2Usb, create_appropriate_dev_id2usb_configurator}

abbrev pub Text : Type 0
Text = List ℕ

abbrev pub tolower : ℕ → ℕ
tolower c = if leb 65 c && leb c 90 then c + 32 else c

abbrev pub strlwr_portable : Text → Text
strlwr_portable [] = []
strlwr_portable (c ∷ s) = tolower c ∷ strlwr_portable s

abbrev pub is_help : Text → Bool
is_help s =
    same_bytes s (codes "-help")
    || (same_bytes s (codes "help")
        || (same_bytes s (codes "--help")
            || (same_bytes s (codes "-h") || same_bytes s (codes "--h"))))

-- The loop over the arguments, which are lower case from then on.
abbrev pub any_help : List Text → Bool
any_help [] = false
any_help (s ∷ args) = is_help (strlwr_portable s) || any_help args

abbrev pub lowered : List Text → List Text
lowered [] = []
lowered (s ∷ args) = strlwr_portable s ∷ lowered args

abbrev pub is_mode : Text → Bool
is_mode s =
    same_bytes s (codes "by_com_addr")
    || (same_bytes s (codes "by_serial")
        || (same_bytes s (codes "by_serialpidvid") || same_bytes s (codes "bvvu")))

-- The mode that a last argument names, if it names one.
unfoldable pub named_mode : Text → Option Text
named_mode s =
    if same_bytes s (codes "urpc")
    then some (codes "by_com_addr")
    else if same_bytes s (codes "ximc")
    then some (codes "by_serial")
    else if same_bytes s (codes "ximc_ext")
    then some (codes "by_serialpidvid")
    else if is_mode s
    then some s
    else none

abbrev pub only_argument : Text → Option Text → Option Text × List Text
only_argument s none = (none, s ∷ [])
only_argument s (some mode) = (some mode, [])

-- The mode, and the arguments in front of it.
abbrev pub take_mode : List Text → Option Text × List Text
take_mode [] = (none, [])
take_mode (s ∷ []) = only_argument s (named_mode s)
take_mode (s ∷ t ∷ args) = let (mode, rest) = take_mode (t ∷ args) in (mode, s ∷ rest)

abbrev pub has_debug : List Text → Bool
has_debug [] = false
has_debug (s ∷ []) = same_bytes (strlwr_portable s) (codes "debug")
has_debug (s ∷ t ∷ args) =
    same_bytes (strlwr_portable s) (codes "debug") || same_bytes t (codes "debug")

pub record Options : Type 0 where
  pub debug : Bool
  pub mode : Text

pub data Command : Type 0 where
  help : Command
  serve : Options → Command

abbrev pub mode_or_bvvu : Option Text → Text
mode_or_bvvu none = codes "bvvu"
mode_or_bvvu (some mode) = mode

-- `main` up to the call of server_main; the arguments are those behind the name of the program.
unfoldable pub main : List Text → Command
main args =
    if any_help args
    then help
    else let (mode, rest) = take_mode (lowered args) in
      serve (record { debug = has_debug rest; mode = mode_or_bvvu mode })

-- What server_main comes to: an error code, or a start with a configurator, null or not, and with or without the log
-- for debugging.
pub data Start : Type 0 where
  sm_err_allstarted : Start
  sm_err_initfailed : Start
  started : Option DevId2Usb → Bool → Start

abbrev pub configurator : Option Text → Option DevId2Usb
configurator none = none
configurator (some s) =
    create_appropriate_dev_id2usb_configurator (if is_mode s then s else codes "bvvu")

abbrev pub is_debug_log : Option Text → Bool
is_debug_log none = false
is_debug_log (some debug) = ltb (length debug) 16 && same_bytes debug (codes "debug")

-- `running` is `is_already_started`, `failed` that `initialization` does not give 0.
unfoldable pub server_main : Bool → Bool → Option Text → Option Text → Start
server_main running failed debug dev2usb_mode =
    if running
    then sm_err_allstarted
    else if failed
    then sm_err_initfailed
    else started (configurator dev2usb_mode) (is_debug_log debug)

abbrev pub debug_of : Options → Option Text
debug_of o = if o.debug then some (codes "debug") else none

-- The server that the command line starts.
abbrev pub serving : Bool → Bool → Command → Option Start
serving running failed help = none
serving running failed (serve o) = some (server_main running failed (debug_of o) (some o.mode))

-- What a program that embeds the server starts.
abbrev pub server_main_as_dev2usb_by_spv_min : Bool → Bool → Bool → Start
server_main_as_dev2usb_by_spv_min running failed debug =
    server_main running failed (if debug then some (codes "debug") else none)
      (some (codes "by_serialpidvid"))
