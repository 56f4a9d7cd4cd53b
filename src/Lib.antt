-- ===== src/Lib.antt =====
-- CoreJack: the Python scripts under bin/ that read the core and board descriptors and prepare builds.
--
-- bin/validate_target.py is the centre: it reads the descriptors under cfg/cores and cfg/boards with its
-- own reader of a YAML subset, checks them against the RTL, the Makefiles and each other, and prints the
-- configuration of a core on a board that the Makefile evaluates. Its parts and their files:
--   Yaml        `yaml_path_scalar`, `yaml_top_list`, `yaml_path_list`
--   Number      `int(value, 0)`, `str`, `parse_positive_int`, `parse_nonnegative_int`
--   Template    `Formatter().parse` and `str.format`
--   Host        the repository the scripts run on: files by path, entries of a directory,
--               `descriptor_names`, `descriptor_path`
--   Search      the regular expressions of `make_target_exists`, `fusesoc_target_exists` and of the
--               search for a module
--   Rtl         `platform_core_type_values`, `mem_num_banks`, `expected_core_enum_name`
--   Descriptor  `require_scalar` to `is_compatible`, with `target_config` in Descriptor/Config
--   CoreCheck   `core_check`, its rules in CoreCheck/Rules
--   BoardCheck  `board_check`, its rules in BoardCheck/Rules
--   Banner      `check_uart_banner_descriptor`, `resolve_uart_banner`
--   Target      `validate`, `print_compatible_cores`, `target_check`
--   Cli         the reports of the checks, `list_targets` and `main`, after argparse
-- Other scripts have a file each, with the theorems in the folder of its name:
--   Uart        bin/uart_sram_load.py, which sends an image to the SRAM loader in the RTL; the port of
--               the operating system and the answers of the device are the record `Line`;
--               Uart/Receiver has the loader, rtl/platform/soc_uart_sram_loader.sv, byte by byte
--   AxiMap      `main` of bin/check_axi_addr_map.py, on the rules and values found in soc_top,
--               which are integers as in the script
--   Cdc         bin/check_vivado_cdc.py, with `fnmatchcase` and the csv reader as parameters
--   SupportMatrix  bin/render_support_matrix.py
--   Deps        `run_with_retry` of bin/deps_core.py
--   Scaffold    bin/create_core.py: the tests of the options in Scaffold/Request, the new files in
--               Scaffold/Texts, the edits in Scaffold/Package and Scaffold/CoreFile, all of it in
--               Scaffold/Create
--   BoardScaffold  bin/create_board.py: the new files in BoardScaffold/Texts and BoardScaffold/Wrapper,
--               the edit in BoardScaffold/Target, all of it in BoardScaffold/Create
--   Versions    bin/bump_version.py: the patterns and the sweep; Versions/Bump has `main`
--   Vivado      bin/check_vivado_warnings.py
--   Drawing     bin/postprocess_drawio_svg.py, `postprocess`
--   Tools       bin/check_tools.py: the tests; Tools/Listed has the tools, Tools/Main `main`; the
--               commands, the environment and the search path are the record `Machine`
-- The scripts that change the repository are written over Edit, a state of the files that stays as it
-- is at a failure; Splice has the replacements in a text that they share.
--
-- A text is the list of its character codes, and `\b`, `\d`, `lower` and `upper` are those of
-- ASCII. A function that may fail returns `Failure.Result`; a constructor of `Failure`
-- stands for a message of `fail` or for an exception that nothing catches, its fields for the values in
-- the message. A command that prints as it goes is a `Script`: what it printed before a failure stays.
-- The files, the directory listings, `Path.resolve` and format specifications are fields of `Host`,
-- since they are not code of the repository.
--
-- Loops over lines and lists are recursions on the list. `decimal_onto`, which writes a number, has fuel
-- `suc n` for the number n, and each round divides it by ten.
-- `write_chunks` has the length of the image as fuel, and each round sends at least one byte.
-- `flatten_light_dark` and `replace_all` have the length of the text, and each round takes at least one
-- character from it.
--
-- The address, the chunk size and the baud rate of bin/uart_sram_load.py are natural numbers. An image
-- may go past 4 GiB within its last packet, where the address register of the loader starts again.
--
-- Not modelled: the parsing of command lines by argparse, the messages that the scaffolding scripts and
-- bin/bump_version.py print, errors of the file system other than a missing file, `parse_soc_top` of
-- bin/check_axi_addr_map.py, the git commands of bin/deps_core.py, bin/vivado_tcl_to_flist.py,
-- `main` of bin/postprocess_drawio_svg.py, and the testbenches under tb/, which run in a simulator.
pub mod AxiMap
pub mod Banner
pub mod BoardCheck
pub mod BoardScaffold
pub mod Cdc
pub mod Cli
pub mod CoreCheck
pub mod Deps
pub mod Descriptor
pub mod Drawing
pub mod Edit
pub mod Failure
pub mod Host
pub mod Members
pub mod Number
pub mod Prelude
pub mod Rtl
pub mod Scaffold
pub mod Script
pub mod Search
pub mod Splice
pub mod SupportMatrix
pub mod Target
pub mod Template
pub mod Tests
pub mod Text
pub mod Tools
pub mod Uart
pub mod Versions
pub mod Vivado
pub mod Yaml
