-- ===== src/Lib.antt =====
-- A model of the terminal of _lib/vt.c, with _lib/vt.h and _lib/width.h: the parser of the bytes that
-- programs write, and the screen it keeps. tmux/, xtmux/, mc/ and the X11 terminal are clients of it:
-- they feed it bytes by vt_feed and read the cells. The repository asks of it that no input makes it
-- touch memory outside its arrays, and that the screen is the one that the input describes.
--
-- The parts, and the files that model them:
--   _lib/vt.h: the data                                  Vt/Types
--   blank_cell, clear_row_range, alloc_cells             Vt/Cells
--   the tab stops                                        Vt/Tabs
--   scr_init, vt_init, vt_init_view                      Vt/Init
--   scrollback_capture                                   Vt/Scrollback
--   scroll_up, scroll_down, cursor_set, do_lf, do_ri     Vt/Scroll
--   _lib/width.h, cp_width                               Vt/Width
--   put_char                                             Vt/Put
--   handle_c0                                            Vt/Control
--   handle_sgr                                           Vt/Sgr
--   dispatch_csi                                         Vt/Csi: cursor, tabs, region and status in
--                                                        Csi/Move, erasing and shifting in Csi/Edit, the
--                                                        private modes in Csi/Private
--   dispatch_esc, dispatch_osc                           Vt/Escape
--   utf8_feed                                            Vt/Utf8
--   csi_clear, csi_digit, csi_sep, vt_feed               Vt/Feed
--   resize_grid, scr_resize without reflow               Vt/Resize
--   row_wraps, cell_blank, decode_text, lay_line         Vt/Reflow
--   reflow                                               Vt/Reflow: its first step in Gather, the history
--                                                        in History, the layout in Lines
--   reflow, scr_resize, vt_resize as a whole             Vt/Reflow/Commit
--   the calls of a client, in any order                  Vt/Life
--   vt_serialize, vt_deserialize, vt_write_all           Vt/Wire: the structs in Wire, cells and arrays in
--                                                        Wire/Rows, the functions in Wire/Serial, the
--                                                        loops in Wire/Transfer
-- Vt/Safety declares what a well-formed screen and parser are; the modules below it treat one operation
-- each. Vt/Cells/Contents, Vt/Scroll/Contents, Vt/Csi/AltScreen, Vt/Utf8/RoundTrip, Vt/Put/Narrow, Vt/Reflow/Layout, Vt/Reflow/Decode,
-- Vt/Reflow/Gather/Bounds and Vt/Reflow/Commit/Resized say more about single operations. Vt/Tests holds examples.
--
-- How the state corresponds to the code. A computation that reads or writes an array is an Option,
-- with none for an access outside it: arrays carry the size that was allocated (Buffer.size,
-- Grid.height and Grid.width), and every access checks it. `Safe P o` says that o is some x with P x.
-- A grid is its cells in the order of its row pointers, so that exchanging two row pointers is
-- exchanging two rows. A pointer that may be NULL is an Option: the alternate grid, the flags of the
-- rows, the scrollback. Numbers are natural numbers, since the int fields never become negative;
-- cursor_set, which clips negative positions, takes integers. Masks are numbers with bit_and and
-- bit_or. Bytes are numbers, and nothing in Vt/Safety asks that they are below 256.
--
-- Bounds and fuel. A loop over a range recurs on the rounds left. The eviction loop of
-- scrollback_capture has the length of the text as its fuel: each round drops at least one byte. The
-- loop over the SGR parameters has the number of parameters as its fuel: each round takes at least
-- one. The fuel of lay_line is the number of cells of the line, of which each round takes at least
-- one. The loops over the lines of the scrollback have the position where they start, or the bytes
-- there are, as their fuel: each round moves by a byte at least. Tab movements have the number of
-- columns. The repetitions of CHT, CBT and REP recur on the parameter. SCROLLBACK_BYTES is 32768, the
-- size of the line buffer 4096, and the row of tab stops 65 bytes.
--
-- Assumptions and what is left out. Allocations succeed; freeing and madvise have no effect. atoi does
-- not overflow. A well-formed screen has at least one row and two columns: with one column the code
-- writes outside the row, as Vt/Put/Narrow shows. MOUSE_UTF8_URXVT_ENCODINGS is off. Of tmux there are
-- four parts. Tmux/Window and Tmux/Session are the protocol by which it hands a session over
-- (tmux/session.c, send_session and recv_session), with the file descriptors of the SCM_RIGHTS message
-- beside the bytes. Tmux/Input is the state machine of its keys (tmux/input.c), and Tmux/Input/Keys
-- what keys mean. Tmux/Client is the live client (tmux/main.c): its windows with their terminals, the
-- commands on them, resizes and the end of programs, with Client/Typing on the bytes passed to the
-- programs and Client/Events on the events of the main loop. What pty_open returns and what the kernel
-- answers to the writes (write, select and read, as a list for each call of pty_write_all, with which
-- the call ends) are parameters; a pointer to a window is its slot with the number of the pty_open it
-- was made with; drawing is reduced to what it reads. The output of the programs that the main loop
-- reads outside a write is left out, and a run in which a freed window is used by held_w, or held
-- bytes go out behind the scrollback view, is followed no further. Tmux/Status is the status line
-- (tmux/status.c), with Status/Row on what is drawn and Status/Width on its width; the padding has its
-- width as its fuel. The renderer, the observers and the other clients are not modelled. On the wire a
-- file descriptor is the list of its bytes; numbers are little-endian and read as unsigned, and the C
-- types of the fields are the hypothesis IsRepresentable.
--
-- The tools uniq, sort, wc, rev and tac are modelled as well. Uniq is uniq/uniq.c, from the bytes of
-- the standard input to those of the standard output: a buffer is the list of its bytes in use, a
-- count has at most 20 digits, and writes succeed. Uniq/Lines describes the output line by line. Sort
-- is the comparison of lines of sort/sort.c, where a line is the list of its bytes, and Sort/Heap its
-- heapsort, whose inner loop has one round more than the heap has nodes as its fuel, since the node
-- number grows. Sort/Output is sort_buffer, over the bytes of the input, with the count of its lines
-- in main; writes succeed. Reading the files and the arena are left out. Sort/Order and
-- Sort/Transitive treat the comparison, Sort/Rearrange, Sort/Sift and Sort/Sorted the heapsort, and
-- the modules below Sort/Output what is written. Wc is count_fd of wc/wc.c, over the results of its
-- reads, with 64-bit counters. Rev is the loop of rev/rev.c over the lines of the input in memory,
-- where the fuel is the number of bytes: Rev/Flip treats one line, Rev/Lines all. Tac is main of
-- tac/tac.c on the input in memory, and Tac/Lines says what it writes. Each has its examples in Tests.
--
-- Str is _lib/str.h, the strings that the programs share: strlen, strlcpy and strlcat on arrays of
-- bytes, where the fuel of a scan is the size of the array. Str/Strings says what a string is, and
-- Str/Bounded what the two copies promise. Str/Decimal is utoa, with fuel for the 20 digits that a
-- number of 64 bits has at most. Mem is memchr and memmem of _lib/mem.h, where a pointer is an index
-- and NULL is none.
pub mod Common
pub mod Str
pub mod Mem
pub mod Vt
pub mod Uniq
pub mod Sort
pub mod Wc
pub mod Rev
pub mod Tac
pub mod Tmux
