-- ===== src/Tests/Buffers.antt =====
-- The string replacement at concrete buffers.
use cmocka.Prelude.{ℕ, ◌≡◌, refl, false, some, List, ◌∷◌, ◌++◌, codes, length, replicate, arith}
use cmocka.Replace.{Buffer, Replacement, c_strreplace, cmprepare_xml_attribute_string, string_in}
use cmocka.Replace.Found.{replaced}
use cmocka.Replace.Room.{Ends}
use cmocka.Replace.Loop.{c_strreplace-replaced}
use cmocka.Replace.Escape.{escaped, IsSafe, cmprepare_xml_attribute_string-escaped}

abbrev path : List ℕ
path = codes "a%gb%g"

abbrev space : Buffer
space = replicate 16 1

c_strreplace-replaced_example :
    (r : Replacement) × (c_strreplace 7
        (some (path ++ 0 ∷ space))
        (length (path ++ 0 ∷ space))
        (some (codes "%g"))
        (some (codes "run"))
        false
      ≡ some r)
    × Ends 37
        (codes "g")
        (codes "run")
        (length (path ++ 0 ∷ space))
        path
        (replaced (codes "%g") (codes "run") 0 path)
        r
c_strreplace-replaced_example =
    c_strreplace-replaced 37 (codes "g") (codes "run") path space false 7
      (refl, (refl, (refl, (refl, (refl, (refl, tt)))))) (refl, (refl, (refl, tt))) (omega arith)

abbrev name : List ℕ
name = codes "a<b"

cmprepare_xml_attribute_string-escaped_example :
    (buf' : Buffer) × (cmprepare_xml_attribute_string space name ≡ some buf')
    × (length buf' ≡ length space)
    × (string_in buf' ≡ escaped name)
    × IsSafe (string_in buf')
unfolding escaped
cmprepare_xml_attribute_string-escaped_example =
    cmprepare_xml_attribute_string-escaped space name (refl, (refl, (refl, tt))) (omega arith)
