-- ===== src/Console/Browser/Zoom.antt =====
-- The zoom of a picture by the mouse wheel (static/js/file.js). JavaScript's floating-point numbers
-- are a parameter.
use go_fastdfs.Prelude.{Bool, if◌then◌else◌}

-- The numbers, and what the handler computes: an order, `x * 1.05`, `x * 0.95`, `(x - y) / 2`, and 100
pub record Numbers : Type 1 where
  pub Number : Type 0
  pub less : Number → Number → Bool
  pub enlarged : Number → Number
  pub reduced : Number → Number
  pub half_between : Number → Number → Number
  pub hundred : Number

-- `delta`: the sign of the turn
pub data Turn : Type 0 where
  forward backward none_read : Turn

module _ (N : Numbers) where
  pub record Size : Type 0 where
    pub upright : N.Number
    pub across : N.Number

  -- What the handler sets: the size of the picture and of its frame, and the place of the frame
  pub record Frame : Type 0 where
    pub size : Size
    pub top : N.Number
    pub left : N.Number

  unfoldable pub zoomed : Turn → Size → Size → Size
  zoomed forward window image =
      if N.less image.upright window.upright
      then record { upright = N.enlarged image.upright; across = N.enlarged image.across }
      else image
  zoomed backward window image =
      if N.less N.hundred image.upright
      then record { upright = N.reduced image.upright; across = N.reduced image.across }
      else image
  zoomed none_read window image = image

  -- The handler of `mousewheel`
  unfoldable pub on_wheel : Turn → Size → Size → Frame
  unfolding zoomed
  on_wheel turn window image =
      let size = zoomed turn window image in
      record {
        size = size;
        top = N.half_between window.upright size.upright;
        left = N.half_between window.across size.across;
      }
