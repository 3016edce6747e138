-- ===== src/Tests/Start.antt =====
-- Command lines of the server, and places on the USB.
use xibridge.Prelude.{◌≡◌, refl, true, false, [], ◌∷◌, ◌++◌, some, codes}
use xibridge.Ports.Location.{location_id, scan_decimal, id_of_link, get_id_from_usb_location}
use xibridge.Ports.Location.Numbered.{id_of_link-same}
use xibridge.Start.{main, named_mode, help, serve, serving, started}
use xibridge.Ports.{dev_id2usb_by_serial}
use xibridge.Start.Modes.{line, ximc_mode, main-started}

served :
    main (codes "debug" ∷ codes "XIMC" ∷ [])
    ≡ serve (record { debug = true; mode = codes "by_serial" })
unfolding main named_mode
served = refl

helped : main (codes "debug" ∷ codes "-H" ∷ []) ≡ help
unfolding main
helped = refl

main-started_example :
    (main (line (some (codes "Key.sqlite")) true (some ximc_mode))
      ≡ serve (record { debug = true; mode = codes "by_serial" }))
    × (serving false false (main (line (some (codes "Key.sqlite")) true (some ximc_mode)))
        ≡ some (started (some dev_id2usb_by_serial) true))
main-started_example = main-started (some (codes "Key.sqlite")) true (some ximc_mode) refl

-- Port 2 of the hub at port 3.
on_a_hub :
    get_id_from_usb_location (λ name. some (codes "../../1-1.3.2:1.0")) (codes "/dev/ttyACM0")
    ≡ (16, true)
unfolding get_id_from_usb_location id_of_link location_id scan_decimal
on_a_hub = refl

id_of_link-same_example :
    id_of_link (codes "../.." ++ 47 ∷ ((codes "1-1" ++ 46 ∷ codes "2") ++ 58 ∷ codes "1.0"))
    ≡ id_of_link
        (codes "../.." ++ 47 ∷ ((codes "1-1" ++ 46 ∷ 49 ∷ 46 ∷ codes "2") ++ 58 ∷ codes "1.0"))
id_of_link-same_example =
    id_of_link-same (codes "../..") (codes "1-1") (codes "2") (codes "1.0")
      (record { no_dot = refl; no_colon = refl; no_slash = refl })
      (record { no_dot = refl; no_colon = refl; no_slash = refl }) refl
