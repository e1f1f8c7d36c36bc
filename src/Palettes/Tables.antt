-- ===== src/Palettes/Tables.antt =====
-- The palettes of the products (boostVivid and the palettes of assets/js/radar_palettes.js).
use voria.Prelude.{ℕ, List, [], ◌∷◌, Option, none, some, if◌then◌else◌}
use voria.Prelude.Int.{pos, negsuc}
use voria.Prelude.Text.{Text, codes, text_eq}
use voria.Palettes.Numbers.{
  Number, Rgb, Stop, whole, clamp, gl_smoothstep, max_number, norm01, mix, mix3, segment_sampler,
}

module _ {R : Type 0} ⦃num : Number R⦄ where
  abbrev pub rgb : R → R → R → Rgb R
  rgb r g b = record { red = r; green = g; blue = b }

  abbrev pub stop : R → Rgb R → R → Stop R
  stop v c a = record { value = v; colour = c; alpha = a }

  abbrev pub map_rgb : (R → R) → Rgb R → Rgb R
  map_rgb f c = rgb (f c.red) (f c.green) (f c.blue)

  -- A colour given in 255ths.
  abbrev pub bytes : ℕ → ℕ → ℕ → Rgb R
  bytes r g b = rgb (num.lit (pos r) 255) (num.lit (pos g) 255) (num.lit (pos b) 255)

  unfoldable pub boost_vivid : Rgb R → Rgb R
  boost_vivid c =
      let luma =
        num.plus
          (num.plus (num.times (num.lit (pos 299) 1000) c.red)
            (num.times (num.lit (pos 587) 1000) c.green))
          (num.times (num.lit (pos 114) 1000) c.blue) in
      let half = num.lit (pos 1) 2 in
      let vivid = λ (x : R). clamp (mix luma x (num.lit (pos 13) 10)) (whole 0) (whole 1) in
      let contrast = λ (x : R).
        clamp (num.plus (num.times (num.minus x half) (num.lit (pos 108) 100)) half) (whole 0)
          (whole 1) in
      let gamma = λ (x : R). num.power x (num.over (whole 1) (num.lit (pos 92) 100)) in
      map_rgb gamma (map_rgb contrast (map_rgb vivid c))

  -- The stops of `sampleVMI`, the first one and the others.
  unfoldable pub first_vmi : Stop R
  first_vmi = stop (num.lit (pos 0) 1) (bytes 135 135 135) (num.lit (pos 0) 1)

  unfoldable pub more_vmi : List (Stop R)
  more_vmi =
      stop (num.lit (pos 10) 1) (bytes 0 250 250) (num.lit (pos 0) 1)
      ∷ stop (num.lit (pos 20) 1) (bytes 0 250 250) (num.lit (pos 2) 5)
      ∷ stop (num.lit (pos 30) 1) (bytes 0 250 0) (num.lit (pos 4) 5)
      ∷ stop (num.lit (pos 40) 1) (bytes 250 250 0) (num.lit (pos 4) 5)
      ∷ stop (num.lit (pos 50) 1) (bytes 250 100 0) (num.lit (pos 4) 5)
      ∷ stop (num.lit (pos 100) 1) (bytes 250 0 0) (num.lit (pos 4) 5)
      ∷ []

  unfoldable pub palette_vmi : R → Rgb R × R
  unfolding first_vmi more_vmi
  palette_vmi v =
      let (colour, alpha) = segment_sampler first_vmi more_vmi v in (boost_vivid colour, alpha)

  unfoldable pub palette_sri : R → Rgb R × R
  palette_sri v =
      let t = norm01 v (whole 0) (whole 100) in
      let c0 : Rgb R = rgb (num.lit (pos 3) 4) (num.lit (pos 9) 10) (num.lit (pos 1) 2) in
      let c1 : Rgb R = rgb (num.lit (pos 0) 1) (num.lit (pos 4) 5) (num.lit (pos 1) 1) in
      let c2 : Rgb R = rgb (num.lit (pos 0) 1) (num.lit (pos 4) 5) (num.lit (pos 0) 1) in
      let c3 : Rgb R = rgb (num.lit (pos 1) 1) (num.lit (pos 1) 1) (num.lit (pos 0) 1) in
      let c4 : Rgb R = rgb (num.lit (pos 1) 1) (num.lit (pos 13) 20) (num.lit (pos 3) 10) in
      let c5 : Rgb R = rgb (num.lit (pos 1) 1) (num.lit (pos 0) 1) (num.lit (pos 3) 10) in
      let c6 : Rgb R = rgb (num.lit (pos 3) 5) (num.lit (pos 0) 1) (num.lit (pos 4) 5) in
      let a = mix3 c0 c1 (gl_smoothstep (num.lit (pos 0) 1) (num.lit (pos 2) 25) t) in
      let b = mix3 c2 c3 (gl_smoothstep (num.lit (pos 3) 25) (num.lit (pos 3) 10) t) in
      let d = mix3 c4 c5 (gl_smoothstep (num.lit (pos 2) 5) (num.lit (pos 7) 10) t) in
      let e = mix3 d c6 (gl_smoothstep (num.lit (pos 7) 10) (num.lit (pos 1) 1) t) in
      let chosen = if num.le (num.lit (pos 1) 5) t then whole 1 else whole 0 in
      (
        mix3 (mix3 a b chosen) e (gl_smoothstep (num.lit (pos 7) 20) (num.lit (pos 1) 1) t),
        gl_smoothstep (num.lit (pos 1) 100) (num.lit (pos 1) 20) t,
      )

  -- The stops of `sampleCUM`.
  unfoldable pub first_cum : Stop R
  first_cum = stop (num.lit (pos 0) 1) (rgb (whole 1) (whole 1) (whole 1)) (num.lit (pos 0) 1)

  unfoldable pub more_cum : List (Stop R)
  more_cum =
      stop (num.lit (pos 1) 10) (bytes 0 250 250) (num.lit (pos 2) 5)
      ∷ stop (num.lit (pos 101) 10) (bytes 0 250 0) (num.lit (pos 7) 10)
      ∷ stop (num.lit (pos 201) 10) (bytes 250 250 0) (num.lit (pos 7) 10)
      ∷ stop (num.lit (pos 401) 10) (bytes 250 100 0) (num.lit (pos 9) 10)
      ∷ stop (num.lit (pos 601) 10) (bytes 250 0 0) (num.lit (pos 9) 10)
      ∷ stop (num.lit (pos 1001) 10) (bytes 250 0 240) (num.lit (pos 9) 10)
      ∷ []

  unfoldable pub palette_cum : R → Rgb R × R
  unfolding first_cum more_cum
  palette_cum v = segment_sampler first_cum more_cum (clamp v (whole 0) (num.lit (pos 1001) 10))

  -- A stop of TEMP_STOPS, which has no opacity: the sampler's is not used.
  abbrev pub temp_stop : R → Rgb R → Stop R
  temp_stop v c = stop v c (whole 0)

  -- TEMP_STOPS
  unfoldable pub first_temp : Stop R
  first_temp = temp_stop (num.lit (negsuc 15) 1) (bytes 0 26 140)

  unfoldable pub more_temp : List (Stop R)
  more_temp =
      temp_stop (num.lit (negsuc 13) 1) (bytes 0 46 158)
      ∷ temp_stop (num.lit (negsuc 9) 1) (bytes 0 85 255)
      ∷ temp_stop (num.lit (negsuc 3) 1) (bytes 0 181 255)
      ∷ temp_stop (num.lit (negsuc 1) 1) (bytes 121 225 255)
      ∷ temp_stop (num.lit (pos 0) 1) (bytes 0 255 0)
      ∷ temp_stop (num.lit (pos 2) 1) (bytes 102 255 0)
      ∷ temp_stop (num.lit (pos 4) 1) (bytes 153 255 0)
      ∷ temp_stop (num.lit (pos 8) 1) (bytes 204 255 0)
      ∷ temp_stop (num.lit (pos 12) 1) (bytes 255 255 102)
      ∷ temp_stop (num.lit (pos 16) 1) (bytes 255 234 128)
      ∷ temp_stop (num.lit (pos 20) 1) (bytes 255 195 77)
      ∷ temp_stop (num.lit (pos 24) 1) (bytes 255 158 26)
      ∷ temp_stop (num.lit (pos 28) 1) (bytes 255 111 0)
      ∷ temp_stop (num.lit (pos 32) 1) (bytes 255 54 0)
      ∷ temp_stop (num.lit (pos 36) 1) (bytes 224 0 0)
      ∷ temp_stop (num.lit (pos 40) 1) (bytes 255 0 255)
      ∷ temp_stop (num.lit (pos 44) 1) (bytes 178 102 255)
      ∷ []

  unfoldable pub palette_temp : R → Rgb R × R
  unfolding first_temp more_temp
  palette_temp v = ((segment_sampler first_temp more_temp v).0, num.lit (pos 19) 20)

  -- IR_STOPS: a value and a shade of gray.
  unfoldable pub ir_stops : List (R × R)
  ir_stops =
      (num.lit (negsuc 69) 1, num.lit (pos 1) 1)
      ∷ (num.lit (negsuc 59) 1, num.lit (pos 197) 200)
      ∷ (num.lit (negsuc 49) 1, num.lit (pos 39) 40)
      ∷ (num.lit (negsuc 39) 1, num.lit (pos 193) 200)
      ∷ (num.lit (negsuc 29) 1, num.lit (pos 191) 200)
      ∷ (num.lit (negsuc 19) 1, num.lit (pos 189) 200)
      ∷ (num.lit (negsuc 9) 1, num.lit (pos 187) 200)
      ∷ (num.lit (pos 0) 1, num.lit (pos 37) 40)
      ∷ (num.lit (pos 5) 1, num.lit (pos 91) 100)
      ∷ (num.lit (pos 10) 1, num.lit (pos 179) 200)
      ∷ (num.lit (pos 20) 1, num.lit (pos 87) 100)
      ∷ (num.lit (pos 35) 1, num.lit (pos 21) 25)
      ∷ []

  -- The loop over the neighbours; `col` is what it was before.
  unfoldable pub ir_loop : R → List (R × R) → R → R
  ir_loop v [] col = col
  ir_loop v (s ∷ []) col = col
  ir_loop v ((v0, g0) ∷ (v1, g1) ∷ ss) col =
      let rest = ir_loop v ((v1, g1) ∷ ss) col in
      let width = max_number (num.lit (pos 1) 1000000) (num.minus v1 v0) in
      let part = clamp (num.over (num.minus v v0) width) (whole 0) (whole 1) in
      if num.le v v1 then mix g0 g1 (gl_smoothstep (whole 0) (whole 1) part) else rest

  unfoldable pub ir_alpha : R → R
  ir_alpha v =
      if num.le (num.lit (pos 20) 1) v
      then whole 0
      else if num.le (num.lit (pos 10) 1) v
      then num.times (gl_smoothstep (num.lit (pos 20) 1) (num.lit (pos 10) 1) v)
          (num.lit (pos 7) 20)
      else if num.le (num.lit (pos 0) 1) v
      then mix (num.lit (pos 7) 20) (num.lit (pos 3) 5)
          (gl_smoothstep (num.lit (pos 10) 1) (num.lit (pos 0) 1) v)
      else if num.le (num.lit (negsuc 19) 1) v
      then mix (num.lit (pos 3) 5) (num.lit (pos 17) 20)
          (gl_smoothstep (num.lit (pos 0) 1) (num.lit (negsuc 19) 1) v)
      else if num.le (num.lit (negsuc 39) 1) v
      then mix (num.lit (pos 17) 20) (num.lit (pos 19) 20)
          (gl_smoothstep (num.lit (negsuc 19) 1) (num.lit (negsuc 39) 1) v)
      else if num.le (num.lit (negsuc 59) 1) v
      then mix (num.lit (pos 19) 20) (num.lit (pos 49) 50)
          (gl_smoothstep (num.lit (negsuc 39) 1) (num.lit (negsuc 59) 1) v)
      else num.lit (pos 49) 50

  unfoldable pub palette_ir108 : R → Rgb R × R
  unfolding ir_stops ir_loop ir_alpha
  palette_ir108 v =
      let g = num.power (ir_loop v ir_stops (num.lit (pos 21) 25)) (num.lit (pos 17) 20) in
      (rgb g g g, num.times (ir_alpha v) (num.lit (pos 19) 20))

-- `noDataCut01` and `noDataFillR`, which some palettes do not have.
pub record Palette (R : Type 0) : Type 0 where
  pub unit : Text
  pub src_min : R
  pub src_max : R
  pub no_data_cut : R
  pub no_data_fill : Option (ℕ × ℕ)
  pub sample : R → Rgb R × R

module _ {R : Type 0} ⦃num : Number R⦄ where
  abbrev pub precipitation : Text → ℕ → (R → Rgb R × R) → Palette R
  precipitation unit max sample = record {
    unit = unit;
    src_min = whole 0;
    src_max = whole max;
    no_data_cut = whole 0;
    no_data_fill = none;
    sample = sample;
  }

  unfoldable pub palette_for : Text → Palette R
  palette_for id =
      let vmi = precipitation (codes "dBZ") 60 palette_vmi in
      let rate = precipitation (codes "mm/h") 100 palette_sri in
      let cumulated = precipitation (codes "mm") 200 palette_cum in
      if text_eq id (codes "VMI")
      then vmi
      else if text_eq id (codes "SRI")
      then rate
      else if text_eq id (codes "SRT1")
      then rate
      else if text_eq id (codes "CUM3")
      then cumulated
      else if text_eq id (codes "CUM6")
      then cumulated
      else if text_eq id (codes "CUM12")
      then cumulated
      else if text_eq id (codes "CUM24")
      then cumulated
      else if text_eq id (codes "TEMP")
      then record {
        unit = codes "°C";
        src_min = num.lit (negsuc 19) 1;
        src_max = whole 45;
        no_data_cut = num.lit (pos 1) 20;
        no_data_fill = some (67, 69);
        sample = palette_temp;
      }
      else if text_eq id (codes "IR_108")
      then record {
        unit = codes "°C";
        src_min = num.lit (negsuc 69) 1;
        src_max = whole 35;
        no_data_cut = num.lit (pos 3) 100;
        no_data_fill = none;
        sample = palette_ir108;
      }
      else vmi
