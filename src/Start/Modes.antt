-- ===== src/Start/Modes.antt =====
-- The modes of the command line, old and new.
use xibridge.Prelude.{
  ◌≡◌, refl, sym, ap, ◌∙◌, Bool, true, false, not, same_bytes, ℕ, ◌||◌, List, [], ◌∷◌, ◌++◌, Option,
  none, some, if◌then◌else◌, codes, arith,
}
use xibridge.Ports.{
  DevId2Usb, dev_id2usb_bvvu, dev_id2usb_by_com_or_addr, dev_id2usb_by_serial,
  dev_id2usb_by_serial_pid_vid, create_appropriate_dev_id2usb_configurator,
}
use xibridge.Start.{
  Text, tolower, only_argument, strlwr_portable, is_help, any_help, lowered, named_mode, take_mode,
  has_debug, help, serve, main, started, server_main, serving, debug_of, configurator, is_debug_log,
}

any_help-append :
    (args : List Text) (s : Text)
    → is_help (strlwr_portable s) ≡ false
    → any_help (args ++ s ∷ []) ≡ any_help args
any_help-append [] s h = rw h refl
any_help-append (a ∷ args) s h =
    ap (λ b. is_help (strlwr_portable a) || b) (any_help-append args s h)

lowered-append :
    (args : List Text) (s : Text)
    → lowered (args ++ s ∷ []) ≡ lowered args ++ strlwr_portable s ∷ []
lowered-append [] s = refl
lowered-append (a ∷ args) s = ap (λ l. strlwr_portable a ∷ l) (lowered-append args s)

take_mode-append :
    (args : List Text) (s mode : Text)
    → named_mode s ≡ some mode
    → take_mode (args ++ s ∷ []) ≡ (some mode, args)
take_mode-append [] s mode h = rw h refl
take_mode-append (a ∷ []) s mode h = rw h refl
take_mode-append (a ∷ b ∷ args) s mode h =
    ap (λ (r : Option Text × List Text). (r.0, a ∷ r.1)) (take_mode-append (b ∷ args) s mode h)

-- A command line whose last word names a mode.
pub main-named :
    (args : List Text) (s mode : Text)
    → is_help (strlwr_portable s) ≡ false
    → named_mode (strlwr_portable s) ≡ some mode
    → main (args ++ s ∷ []) ≡ (
        if any_help args
        then help
        else serve (record { debug = has_debug (lowered args); mode = mode }))
unfolding main
main-named args s mode h n =
    rw
      (
        any_help-append args s h,
        lowered-append args s,
        take_mode-append (lowered args) (strlwr_portable s) mode n,
      )
      refl

-- The words urpc, ximc and ximc_ext at the end of a command line do what by_com_addr, by_serial and by_serialpidvid
-- do there, whatever the words in front of them.
pub main-compatible :
    (args : List Text)
    → (main (args ++ codes "urpc" ∷ []) ≡ main (args ++ codes "by_com_addr" ∷ []))
      × (main (args ++ codes "ximc" ∷ []) ≡ main (args ++ codes "by_serial" ∷ []))
      × (main (args ++ codes "ximc_ext" ∷ []) ≡ main (args ++ codes "by_serialpidvid" ∷ []))
unfolding named_mode
main-compatible args = (
  main-named args (codes "urpc") (codes "by_com_addr") refl refl
      ∙ sym (main-named args (codes "by_com_addr") (codes "by_com_addr") refl refl),
  main-named args (codes "ximc") (codes "by_serial") refl refl
      ∙ sym (main-named args (codes "by_serial") (codes "by_serial") refl refl),
  main-named args (codes "ximc_ext") (codes "by_serialpidvid") refl refl
      ∙ sym (main-named args (codes "by_serialpidvid") (codes "by_serialpidvid") refl refl),
)

-- The command line as it is documented: a key file, the word debug, a mode, each of which can be left out.
pub data Mode : Type 0 where
  com_addr_mode : Mode
  serial_mode : Mode
  serial_pidvid_mode : Mode
  bvvu_mode : Mode
  urpc_mode : Mode
  ximc_mode : Mode
  ximc_ext_mode : Mode

abbrev pub mode_word : Mode → Text
mode_word com_addr_mode = codes "by_com_addr"
mode_word serial_mode = codes "by_serial"
mode_word serial_pidvid_mode = codes "by_serialpidvid"
mode_word bvvu_mode = codes "bvvu"
mode_word urpc_mode = codes "urpc"
mode_word ximc_mode = codes "ximc"
mode_word ximc_ext_mode = codes "ximc_ext"

abbrev pub words : Option Text → Bool → List Text
words none false = []
words none true = codes "debug" ∷ []
words (some key) false = key ∷ []
words (some key) true = key ∷ codes "debug" ∷ []

abbrev pub line : Option Text → Bool → Option Mode → List Text
line key debug none = words key debug
line key debug (some m) = words key debug ++ mode_word m ∷ []

-- The mode and the configurator meant.
abbrev pub meant : Option Mode → Text
meant none = codes "bvvu"
meant (some com_addr_mode) = codes "by_com_addr"
meant (some serial_mode) = codes "by_serial"
meant (some serial_pidvid_mode) = codes "by_serialpidvid"
meant (some bvvu_mode) = codes "bvvu"
meant (some urpc_mode) = codes "by_com_addr"
meant (some ximc_mode) = codes "by_serial"
meant (some ximc_ext_mode) = codes "by_serialpidvid"

abbrev pub kind : Option Mode → DevId2Usb
kind none = dev_id2usb_bvvu
kind (some com_addr_mode) = dev_id2usb_by_com_or_addr
kind (some serial_mode) = dev_id2usb_by_serial
kind (some serial_pidvid_mode) = dev_id2usb_by_serial_pid_vid
kind (some bvvu_mode) = dev_id2usb_bvvu
kind (some urpc_mode) = dev_id2usb_by_com_or_addr
kind (some ximc_mode) = dev_id2usb_by_serial
kind (some ximc_ext_mode) = dev_id2usb_by_serial_pid_vid

-- The words that are no key file, in any case of their letters.
abbrev reserved : List Text
reserved =
    codes "debug"
    ∷ codes "-help"
    ∷ codes "help"
    ∷ codes "--help"
    ∷ codes "-h"
    ∷ codes "--h"
    ∷ codes "by_com_addr"
    ∷ codes "by_serial"
    ∷ codes "by_serialpidvid"
    ∷ codes "bvvu"
    ∷ codes "urpc"
    ∷ codes "ximc"
    ∷ codes "ximc_ext"
    ∷ []

abbrev is_among : Text → List Text → Bool
is_among s [] = false
is_among s (w ∷ ws) = same_bytes s w || is_among s ws

abbrev pub is_key : Option Text → Bool
is_key none = true
is_key (some key) = not (is_among (strlwr_portable key) reserved)

strlwr_twice : (s : Text) → strlwr_portable (strlwr_portable s) ≡ strlwr_portable s
strlwr_twice [] = refl
strlwr_twice (c ∷ s) =
    ap (λ b. b ∷ strlwr_portable (strlwr_portable s)) (once c)
    ∙ ap (λ l. tolower c ∷ l) (strlwr_twice s)
  where
    once : (b : ℕ) → tolower (tolower b) ≡ tolower b
    once b = ground arith

key_no_help : (s : Text) → not (is_among s reserved) ≡ true → is_help s ≡ false
key_no_help s h = ground arith

key_no_debug : (s : Text) → not (is_among s reserved) ≡ true → same_bytes s (codes "debug") ≡ false
key_no_debug s h = ground arith

key_no_mode : (s : Text) → not (is_among s reserved) ≡ true → named_mode s ≡ none
unfolding named_mode
key_no_mode s h = ground arith

words_no_help :
    (key : Option Text) (debug : Bool) → is_key key ≡ true → any_help (words key debug) ≡ false
words_no_help none false h = refl
words_no_help none true h = refl
words_no_help (some key) false h = rw (key_no_help (strlwr_portable key) h) refl
words_no_help (some key) true h = rw (key_no_help (strlwr_portable key) h) refl

words_debug :
    (key : Option Text) (debug : Bool)
    → is_key key ≡ true
    → has_debug (lowered (words key debug)) ≡ debug
words_debug none false h = refl
words_debug none true h = refl
words_debug (some key) false h =
    ap (λ s. same_bytes s (codes "debug")) (strlwr_twice key) ∙ key_no_debug (strlwr_portable key) h
words_debug (some key) true h =
    ap (λ s. same_bytes s (codes "debug") || true) (strlwr_twice key)
    ∙ ap (λ b. b || true) (key_no_debug (strlwr_portable key) h)

words_no_mode :
    (key : Option Text) (debug : Bool)
    → is_key key ≡ true
    → take_mode (lowered (words key debug)) ≡ (none, lowered (words key debug))
unfolding named_mode
words_no_mode none false h = refl
words_no_mode none true h = refl
words_no_mode (some key) false h =
    ap (only_argument (strlwr_portable key)) (key_no_mode (strlwr_portable key) h)
words_no_mode (some key) true h = refl

main-unnamed :
    (key : Option Text) (debug : Bool)
    → is_key key ≡ true
    → main (words key debug) ≡ serve (record { debug = debug; mode = codes "bvvu" })
unfolding main
main-unnamed key debug h =
    rw (words_no_help key debug h, words_no_mode key debug h, words_debug key debug h) refl

main-worded :
    (key : Option Text) (debug : Bool) (m : Mode)
    → is_key key ≡ true
    → is_help (strlwr_portable (mode_word m)) ≡ false
    → named_mode (strlwr_portable (mode_word m)) ≡ some (meant (some m))
    → main (line key debug (some m)) ≡ serve (record { debug = debug; mode = meant (some m) })
main-worded key debug m h e n =
    main-named (words key debug) (mode_word m) (meant (some m)) e n
    ∙ rw (words_no_help key debug h, words_debug key debug h) refl

mode_word-named : (m : Mode) → named_mode (strlwr_portable (mode_word m)) ≡ some (meant (some m))
unfolding named_mode
mode_word-named com_addr_mode = refl
mode_word-named serial_mode = refl
mode_word-named serial_pidvid_mode = refl
mode_word-named bvvu_mode = refl
mode_word-named urpc_mode = refl
mode_word-named ximc_mode = refl
mode_word-named ximc_ext_mode = refl

mode_word_no_help : (m : Mode) → is_help (strlwr_portable (mode_word m)) ≡ false
mode_word_no_help com_addr_mode = refl
mode_word_no_help serial_mode = refl
mode_word_no_help serial_pidvid_mode = refl
mode_word_no_help bvvu_mode = refl
mode_word_no_help urpc_mode = refl
mode_word_no_help ximc_mode = refl
mode_word_no_help ximc_ext_mode = refl

main-line :
    (key : Option Text) (debug : Bool) (m : Option Mode)
    → is_key key ≡ true
    → main (line key debug m) ≡ serve (record { debug = debug; mode = meant m })
main-line key debug none h = main-unnamed key debug h
main-line key debug (some m) h = main-worded key debug m h (mode_word_no_help m) (mode_word-named m)

configurator-meant : (m : Option Mode) → configurator (some (meant m)) ≡ some (kind m)
unfolding create_appropriate_dev_id2usb_configurator
configurator-meant none = refl
configurator-meant (some com_addr_mode) = refl
configurator-meant (some serial_mode) = refl
configurator-meant (some serial_pidvid_mode) = refl
configurator-meant (some bvvu_mode) = refl
configurator-meant (some urpc_mode) = refl
configurator-meant (some ximc_mode) = refl
configurator-meant (some ximc_ext_mode) = refl

debug_of-is_debug_log :
    (debug : Bool) (s : Text) → is_debug_log (debug_of (record { debug = debug; mode = s })) ≡ debug
debug_of-is_debug_log true s = refl
debug_of-is_debug_log false s = refl

-- On each command line that gives a key file, the word debug and one of the seven modes, in this order and each of them
-- or not, main serves with the log for debugging exactly if the word is there and with the mode meant, which is bvvu where
-- none is given; and a server_main that is not running already and could be initialised starts with that log and the
-- configurator of that mode. The name of the key file is none of the words for help, debug and the modes, in any case.
pub main-started :
    (key : Option Text) (debug : Bool) (m : Option Mode)
    → is_key key ≡ true
    → (main (line key debug m) ≡ serve (record { debug = debug; mode = meant m }))
      × (serving false false (main (line key debug m)) ≡ some (started (some (kind m)) debug))
unfolding server_main
main-started key debug m h = (
  main-line key debug m h,
  ap (serving false false) (main-line key debug m h)
      ∙ ap
          (λ c.
            some (started c (is_debug_log (debug_of (record { debug = debug; mode = meant m })))))
          (configurator-meant m)
      ∙ ap (λ b. some (started (some (kind m)) b)) (debug_of-is_debug_log debug (meant m)),
)
