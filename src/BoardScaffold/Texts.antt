-- ===== src/BoardScaffold/Texts.antt =====
-- The other files of a new board, line by line: `board_descriptor`, `board_core` and `board_xdc` of
-- bin/create_board.py.
use corejack.Prelude.{List, [], ◌∷◌, ◌++◌}
use corejack.Text.{Text, codes}
use corejack.Text.Lines.{unlines}
use corejack.Number.{show_int}
use corejack.BoardScaffold.{Board}

unfoldable pub descriptor_lines : Board → List Text
descriptor_lines a =
    (codes "name: " ++ a.board)
    ∷ (codes "display_name: " ++ a.display_name)
    ∷ []
    ∷ codes "fpga:"
    ∷ (codes "  part: " ++ a.part)
    ∷ codes "  top_template: corejack_{board}_wrap"
    ∷ codes "  target: fpga"
    ∷ codes "  work_root: build/fpga/{board}/{core}/fusesoc-fpga"
    ∷ []
    ∷ codes "fusesoc:"
    ∷ (codes "  board_flag: board_" ++ a.board)
    ∷ []
    ∷ codes "clock:"
    ∷ (codes "  input_hz: " ++ show_int a.input_hz)
    ∷ (codes "  soc_hz: " ++ show_int a.soc_hz)
    ∷ codes "  constraints_ports:"
    ∷ (codes "    p: " ++ a.clock_p)
    ∷ (codes "    n: " ++ a.clock_n)
    ∷ []
    ∷ codes "reset:"
    ∷ (codes "  polarity: " ++ a.reset_polarity)
    ∷ (codes "  constraints_port: " ++ a.reset_port)
    ∷ []
    ∷ codes "uart:"
    ∷ (codes "  baud: " ++ show_int a.uart_baud)
    ∷ (codes "  tx_port: " ++ a.uart_tx)
    ∷ (codes "  rx_port: " ++ a.uart_rx)
    ∷ []
    ∷ codes "debug:"
    ∷ codes "  transport: jtag"
    ∷ codes "  jtag_adapter: tigard"
    ∷ []
    ∷ codes "constraints:"
    ∷ (codes "  xdc: rtl/platform/fpga/boards/"
        ++ (a.board ++ (codes "/" ++ (a.board ++ codes ".xdc"))))
    ∷ []
    ∷ codes "programming:"
    ∷ codes "  flow: vivado"
    ∷ codes "  bitstream_target: fpga-bit"
    ∷ codes "  program_target: fpga-pgm"
    ∷ []
    ∷ codes "validation:"
    ∷ codes "  smoke_app: hello_world"
    ∷ []
    ∷ codes "compatible_cores:"
    ∷ codes "  - ibex"
    ∷ []

unfoldable pub board_core_lines : Board → List Text
board_core_lines a =
    codes "CAPI=2:"
    ∷ []
    ∷ (codes "name: corejack:boards:" ++ (a.board ++ (codes ":" ++ a.version)))
    ∷ (codes "description: "
        ++ (a.display_name ++ codes " FPGA board wrapper and constraints for CoreJack"))
    ∷ []
    ∷ codes "filesets:"
    ∷ codes "  board_rtl:"
    ∷ codes "    files:"
    ∷ (codes "      - rtl/platform/fpga/boards/"
        ++ (a.board ++ (codes "/corejack_" ++ (a.board ++ codes "_wrap.sv"))))
    ∷ (codes "      - rtl/platform/fpga/boards/"
        ++ (a.board ++ (codes "/" ++ (a.board ++ codes ".xdc : {file_type: xdc}"))))
    ∷ codes "    file_type: systemVerilogSource"
    ∷ []
    ∷ codes "targets:"
    ∷ codes "  default:"
    ∷ codes "    filesets:"
    ∷ codes "      - board_rtl"
    ∷ []

unfoldable pub xdc_lines : Board → List Text
xdc_lines a =
    (codes "# " ++ (a.display_name ++ codes " constraints for CoreJack."))
    ∷ codes "# Replace the PACKAGE_PIN placeholders with board-specific pin names before"
    ∷ codes "# attempting bitstream generation."
    ∷ []
    ∷ codes "# Differential input clock"
    ∷ (codes "# set_property PACKAGE_PIN <CLK_P_PIN> [get_ports {" ++ (a.clock_p ++ codes "}]"))
    ∷ (codes "# set_property PACKAGE_PIN <CLK_N_PIN> [get_ports {" ++ (a.clock_n ++ codes "}]"))
    ∷ (codes "# set_property IOSTANDARD DIFF_SSTL12 [get_ports {"
        ++ (a.clock_p ++ (codes " " ++ (a.clock_n ++ codes "}]"))))
    ∷ (codes "# create_clock -period 10.000 [get_ports {" ++ (a.clock_p ++ codes "}]"))
    ∷ []
    ∷ codes "# Reset"
    ∷ (codes "# set_property PACKAGE_PIN <RESET_PIN> [get_ports {" ++ (a.reset_port ++ codes "}]"))
    ∷ (codes "# set_property IOSTANDARD LVCMOS18 [get_ports {" ++ (a.reset_port ++ codes "}]"))
    ∷ []
    ∷ codes "# UART"
    ∷ (codes "# set_property PACKAGE_PIN <UART_TX_PIN> [get_ports {" ++ (a.uart_tx ++ codes "}]"))
    ∷ (codes "# set_property PACKAGE_PIN <UART_RX_PIN> [get_ports {" ++ (a.uart_rx ++ codes "}]"))
    ∷ (codes "# set_property IOSTANDARD LVCMOS18 [get_ports {"
        ++ (a.uart_tx ++ (codes " " ++ (a.uart_rx ++ codes "}]"))))
    ∷ []
    ∷ codes "# JTAG/debug pins, LEDs, and any other board-specific I/O belong here."
    ∷ []

unfoldable pub board_descriptor : Board → Text
unfolding descriptor_lines
board_descriptor a = unlines (descriptor_lines a)

unfoldable pub board_core : Board → Text
unfolding board_core_lines
board_core a = unlines (board_core_lines a)

unfoldable pub board_xdc : Board → Text
unfolding xdc_lines
board_xdc a = unlines (xdc_lines a)
