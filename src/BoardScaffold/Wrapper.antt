-- ===== src/BoardScaffold/Wrapper.antt =====
-- `board_wrapper` of bin/create_board.py: the SystemVerilog top module of a new board, line by line.
use corejack.Prelude.{List, [], ◌∷◌, ◌++◌}
use corejack.Text.{Text, codes}
use corejack.Text.Lines.{unlines}
use corejack.BoardScaffold.{Board, wrap_name}

unfoldable pub wrapper_lines : Board → List Text
wrapper_lines a =
    (codes "module " ++ ((wrap_name a) ++ codes " #("))
    ∷ codes "  parameter int unsigned CoreType = platform_pkg::CoreIbex,"
    ∷ codes "  parameter bit EnableUartLoader = 1'b0,"
    ∷ codes "  // Shared SRAM size in 32-bit words, derived from the single source of truth"
    ∷ (codes "  // (cfg/boards/"
        ++ (a.board ++ codes ".yaml: memory.ram_bytes / 4) and driven in by the"))
    ∷ codes "  // FPGA build via the corejack.core RamWords vlogparam. The default matches"
    ∷ codes "  // the soc_top default (1 MiB); set memory.ram_bytes in the descriptor to"
    ∷ codes "  // change it - do not hardcode the size here."
    ∷ codes "  parameter int unsigned RamWords = 262144"
    ∷ codes ") ("
    ∷ (codes "  input  logic       " ++ (a.clock_p ++ codes ","))
    ∷ (codes "  input  logic       " ++ (a.clock_n ++ codes ","))
    ∷ (codes "  input  logic       " ++ (a.reset_port ++ codes ","))
    ∷ codes "  output logic [3:0] led,"
    ∷ (codes "  output logic       " ++ (a.uart_tx ++ codes ","))
    ∷ (codes "  input  logic       " ++ (a.uart_rx ++ codes ","))
    ∷ codes "  input  logic       jtag_tck,"
    ∷ codes "  input  logic       jtag_tms,"
    ∷ codes "  input  logic       jtag_trst_n,"
    ∷ codes "  input  logic       jtag_tdi,"
    ∷ codes "  output logic       jtag_tdo"
    ∷ codes ");"
    ∷ codes "  import dm::*;"
    ∷ codes "  import soc_bus_pkg::*;"
    ∷ []
    ∷ codes "  logic clk_in;"
    ∷ codes "  logic clk_in_buf;"
    ∷ codes "  logic core_clk_raw;"
    ∷ codes "  logic core_clk;"
    ∷ codes "  logic pll_clkfb;"
    ∷ codes "  logic pll_locked;"
    ∷ codes "  logic pll_locked_r;"
    ∷ codes "  logic rst_ni_raw;"
    ∷ codes "  logic dmactive;"
    ∷ codes "  logic debug_req;"
    ∷ codes "  logic alert_minor;"
    ∷ codes "  logic alert_major_internal;"
    ∷ codes "  logic alert_major_bus;"
    ∷ codes "  logic core_sleep;"
    ∷ codes "  soc_apb_req_t apb_req_unused;"
    ∷ codes "  soc_apb_resp_t apb_rsp_unused;"
    ∷ []
    ∷ codes "  IBUFDS i_sys_clk_ibufds ("
    ∷ (codes "    .I (" ++ (a.clock_p ++ codes "),"))
    ∷ (codes "    .IB(" ++ (a.clock_n ++ codes "),"))
    ∷ codes "    .O (clk_in)"
    ∷ codes "  );"
    ∷ []
    ∷ codes "  BUFG i_sys_clk_bufg ("
    ∷ codes "    .I(clk_in),"
    ∷ codes "    .O(clk_in_buf)"
    ∷ codes "  );"
    ∷ []
    ∷ codes "  // TODO: Adjust PLL parameters for the board input clock and target SoC clock."
    ∷ codes "  PLLE2_BASE #("
    ∷ codes "    .BANDWIDTH(\"OPTIMIZED\"),"
    ∷ codes "    .CLKFBOUT_MULT(5),"
    ∷ codes "    .CLKIN1_PERIOD(10.0),"
    ∷ codes "    .CLKOUT0_DIVIDE(20),"
    ∷ codes "    .DIVCLK_DIVIDE(1),"
    ∷ codes "    .STARTUP_WAIT(\"FALSE\")"
    ∷ codes "  ) i_pll ("
    ∷ codes "    .CLKOUT0(core_clk_raw),"
    ∷ codes "    .CLKOUT1(),"
    ∷ codes "    .CLKOUT2(),"
    ∷ codes "    .CLKOUT3(),"
    ∷ codes "    .CLKOUT4(),"
    ∷ codes "    .CLKOUT5(),"
    ∷ codes "    .CLKFBOUT(pll_clkfb),"
    ∷ codes "    .LOCKED(pll_locked),"
    ∷ codes "    .CLKIN1(clk_in_buf),"
    ∷ codes "    .PWRDWN(1'b0),"
    ∷ codes "    .RST(1'b0),"
    ∷ codes "    .CLKFBIN(pll_clkfb)"
    ∷ codes "  );"
    ∷ []
    ∷ codes "  BUFG i_core_clk_bufg ("
    ∷ codes "    .I(core_clk_raw),"
    ∷ codes "    .O(core_clk)"
    ∷ codes "  );"
    ∷ []
    ∷ (codes "  always_ff @(posedge core_clk or negedge " ++ (a.reset_port ++ codes ") begin"))
    ∷ (codes "    if (!" ++ (a.reset_port ++ codes ") begin"))
    ∷ codes "      pll_locked_r <= 1'b0;"
    ∷ codes "      rst_ni_raw   <= 1'b0;"
    ∷ codes "    end else begin"
    ∷ codes "      pll_locked_r <= pll_locked;"
    ∷ codes "      rst_ni_raw   <= pll_locked_r;"
    ∷ codes "    end"
    ∷ codes "  end"
    ∷ []
    ∷ codes "  assign apb_req_unused = '0;"
    ∷ []
    ∷ codes "  soc_top #("
    ∷ codes "    .apb_req_t       (soc_apb_req_t),"
    ∷ codes "    .apb_rsp_t       (soc_apb_resp_t),"
    ∷ codes "    .axi_req_t       (soc_axi_req_t),"
    ∷ codes "    .axi_rsp_t       (soc_axi_resp_t),"
    ∷ codes "    .obi_req_t       (soc_obi_req_t),"
    ∷ codes "    .obi_rsp_t       (soc_obi_rsp_t),"
    ∷ codes "    .CoreType        (CoreType),"
    ∷ codes "    .EnablePlatform  (1'b1),"
    ∷ codes "    .EnableUartLoader(EnableUartLoader),"
    ∷ codes "    .RamWords        (RamWords),"
    ∷ codes "    .MemImpl         (mem_ss_pkg::MemImplXilinx)"
    ∷ codes "  ) i_soc_top ("
    ∷ codes "    .clk_i                  (core_clk),"
    ∷ codes "    .rst_ni                 (rst_ni_raw),"
    ∷ codes "    .apb_req_i              (apb_req_unused),"
    ∷ codes "    .apb_rsp_o              (apb_rsp_unused),"
    ∷ (codes "    .uart_rx_i              (" ++ (a.uart_rx ++ codes "),"))
    ∷ (codes "    .uart_tx_o              (" ++ (a.uart_tx ++ codes "),"))
    ∷ codes "    .jtag_tck_i             (jtag_tck),"
    ∷ codes "    .jtag_tms_i             (jtag_tms),"
    ∷ codes "    .jtag_trst_ni           (jtag_trst_n),"
    ∷ codes "    .jtag_tdi_i             (jtag_tdi),"
    ∷ codes "    .jtag_tdo_o             (jtag_tdo),"
    ∷ codes "    .dmactive_o             (dmactive),"
    ∷ codes "    .debug_req_o            (debug_req),"
    ∷ codes "    .alert_minor_o          (alert_minor),"
    ∷ codes "    .alert_major_internal_o (alert_major_internal),"
    ∷ codes "    .alert_major_bus_o      (alert_major_bus),"
    ∷ codes "    .core_sleep_o           (core_sleep)"
    ∷ codes "  );"
    ∷ []
    ∷ codes "  assign led = {core_sleep, debug_req, dmactive, rst_ni_raw};"
    ∷ codes "endmodule"
    ∷ []

unfoldable pub board_wrapper : Board → Text
unfolding wrapper_lines
board_wrapper a = unlines (wrapper_lines a)
