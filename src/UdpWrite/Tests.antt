-- ===== src/UdpWrite/Tests.antt =====
-- A buffer of three bytes that is taken in two calls.
use linux_interface_test.Base.{◌≡◌, arith, [], ◌∷◌}
use linux_interface_test.UdpWrite.{takes, again, sent, concat, write_data, write_data-whole}

write_data-whole_example :
    ((write_data (takes 1 ∷ again ∷ takes 0 ∷ takes 0 ∷ []) (1 ∷ 2 ∷ 3 ∷ [])).0 ≡ sent 3)
    × (concat (write_data (takes 1 ∷ again ∷ takes 0 ∷ takes 0 ∷ []) (1 ∷ 2 ∷ 3 ∷ [])).1
        ≡ 1 ∷ 2 ∷ 3 ∷ [])
write_data-whole_example =
    write_data-whole (takes 1 ∷ again ∷ takes 0 ∷ takes 0 ∷ []) 1 (2 ∷ 3 ∷ []) tt (omega arith)
