-- ===== src/Routing/Text.antt =====
-- The test `keyword in text` of the keyword rules, over code points.
use Prim.Native.Char.{code}
use Prim.Native.String.{String}
use water_info.Base.{Bool, true, false, ◌&&◌, ◌||◌, List, [], ◌∷◌, nat_beq, any, ◌≡◌, refl}

unfoldable pub starts_with : String → String → Bool
starts_with text String.[] = true
starts_with String.[] (String.◌∷◌ k kw) = false
starts_with (String.◌∷◌ c text) (String.◌∷◌ k kw) = nat_beq (code c) (code k) && starts_with text kw

unfoldable pub contains : String → String → Bool
unfolding starts_with
contains String.[] kw = starts_with String.[] kw
contains (String.◌∷◌ c text) kw = starts_with (String.◌∷◌ c text) kw || contains text kw

-- `_contains_any`
unfoldable pub contains_any : String → List String → Bool
unfolding any contains
contains_any text keywords = any (λ k. contains text k) keywords

finds : contains_any "查看水库预案" ("方案" ∷ "预案" ∷ []) ≡ true
unfolding contains_any
finds = refl
