-- ===== src/Tests/UartRuns.antt =====
-- The theorems on the UART loader, with an image of five bytes in packets of two.
use corejack.Prelude.{false, [], some, ◌≡◌, refl, arith}
use corejack.Text.{codes}
use corejack.Uart.{Line, Arguments, Port, going, load}
use corejack.Uart.Delivery.{Delivered, load-Delivered}
use corejack.Uart.Success.{Works, load-going}

-- `os.write` takes three bytes at a time, and the loader acknowledges everything.
abbrev line : Line
line = record { room = λ n. some 2; reply = λ n. some 6; captured = [] }

abbrev args : Arguments
args = record {
  baud = 115200;
  addr = 2147483648;
  chunk_size = 2;
  no_go = false;
  capture = false;
  expect = [];
}

line-Works : Works line
line-Works = record { ready_in_time = λ n. (2, refl); acknowledges = λ n. refl }

load-going_example : (q : Port) × (load line args (some (codes "image")) ≡ going q)
load-going_example =
    load-going line args (codes "image") line-Works (omega arith) (omega arith) (omega arith) refl
      refl

load-Delivered_example :
    Delivered args
      (codes "image")
      (load-going line args
        (codes "image")
        line-Works
        (omega arith)
        (omega arith)
        (omega arith)
        refl
        refl).0
load-Delivered_example =
    load-Delivered line args (codes "image")
      (load-going line args (codes "image") line-Works (omega arith) (omega arith) (omega arith)
        refl refl).1
