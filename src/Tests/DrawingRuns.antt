-- ===== src/Tests/DrawingRuns.antt =====
-- A drawing with two calls of `light-dark`, flattened.
use corejack.Prelude.{◌∷◌, [], ◌≡◌, refl}
use corejack.Text
use corejack.Text.{Text, codes}
use corejack.Failure.{ok}
use corejack.Splice
use corejack.Drawing
use corejack.Drawing.{flatten_light_dark, postprocess}
use corejack.Drawing.Walk.{Balanced}
use corejack.Drawing.Flat.{Drawing, plain, call, drawing_text, flatten_light_dark-light}

chars : Text → Balanced → Balanced
chars [] rest = rest
chars (c ∷ s) rest = Balanced.char c (chars s rest)

abbrev drawing : Drawing
unfolding chars
drawing =
    call (codes "fill: ")
      (chars (codes " rgb") (Balanced.group (chars (codes "0, 0, 0") Balanced.end) Balanced.end))
      (chars (codes " #fff, none") Balanced.end)
      (call (codes "; stroke: ") (chars (codes "#000") Balanced.end)
        (chars (codes "var") (Balanced.group (chars (codes "--x") Balanced.end) Balanced.end))
        (plain (codes ";")))

drawing-text :
    drawing_text drawing
    ≡ codes "fill: light-dark( rgb(0, 0, 0), #fff, none); stroke: light-dark(#000,var(--x));"
unfolding chars
drawing-text = refl

flatten_light_dark-light_example :
    flatten_light_dark
      (codes "fill: light-dark( rgb(0, 0, 0), #fff, none); stroke: light-dark(#000,var(--x));")
    ≡ codes "fill: rgb(0, 0, 0); stroke: #000;"
unfolding chars corejack.Text.lstrip_by corejack.Text.rstrip_by corejack.Text.strip_by
    corejack.Text.is_space corejack.Text.has_infix corejack.Text.strip_prefix
flatten_light_dark-light_example = flatten_light_dark-light drawing refl

-- A call in the first argument of a call stays.
nested_call :
    flatten_light_dark (codes "light-dark(light-dark(a, b), c)") ≡ codes "light-dark(a, b)"
unfolding corejack.Drawing.find corejack.Drawing.depth_after corejack.Drawing.first_after
    corejack.Drawing.walk corejack.Drawing.flatten_from corejack.Drawing.flatten_light_dark
    corejack.Text.lstrip_by corejack.Text.rstrip_by corejack.Text.strip_by corejack.Text.is_space
    corejack.Text.strip_prefix
nested_call = refl

white_page :
    postprocess (
      codes
        "<svg xmlns=\"http://www.w3.org/2000/svg\" style=\"background: transparent\"><g/></svg>")
    ≡ ok (
        codes
          "<svg xmlns=\"http://www.w3.org/2000/svg\" style=\"background: #ffffff\"><rect width=\"100%\" height=\"100%\" fill=\"#ffffff\"/><g/></svg>")
unfolding corejack.Drawing.find corejack.Drawing.depth_after corejack.Drawing.first_after
    corejack.Drawing.walk corejack.Drawing.flatten_from corejack.Drawing.flatten_light_dark
    corejack.Drawing.replace_from corejack.Drawing.replace_all corejack.Drawing.open_tag
    corejack.Drawing.postprocess corejack.Splice.replace_first corejack.Text.lstrip_by
    corejack.Text.rstrip_by corejack.Text.strip_by corejack.Text.is_space corejack.Text.strip_prefix
white_page = refl
