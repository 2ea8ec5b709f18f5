-- ===== src/Lib.antt =====
-- A library of verification for ras, a remote access server for ISDN: programs that the telephone
-- exchange yate starts for a call, and that speak X.75, V.110 or HDLC on its sound channel.
--
-- The program's parts. src/x75 is a link layer, X.75 SLP and LAPB: it numbers frames, keeps those
-- that the other station has not acknowledged, and sends them again. src/yate_x75.c joins it to a
-- TCP connection and to the HDLC code of libosmocore. src/ppp/pppd.c frames the packets of pppd as
-- RFC 1662 says, and src/yate_hdlc_ppp.c joins it to the same HDLC code. src/v110 is a UART in
-- software; src/yate_v110.c takes RLP frames out of V.110 frames. src/fax_decode.c decodes faxes with
-- spandsp, and src/fax_test.c gives it the bits of a recorded call. src/yate_message.c talks to the
-- exchange, and src/yate.c turns its samples into the octets of the line or into floating point, and
-- back. src/yate_tty.c is a text telephone, with src/ttytdd, which starts minimodem for its sound.
--
-- Files and code.
--   Base                 tests of native numbers, lists, and what the modules share
--   Osmo                 libosmocore as a parameter: buffers, queues and timers are the fields of a
--                        record, and their documented behaviour is a record of equations;
--                        Osmo/Concrete is one that fulfils them, on lists
--   X75/Types            src/x75/x75.h and src/x75/x75_int.h: `struct x75_cb` is the record X75Cb
--   X75/Timer, Expiry    src/x75/x75_timer.c
--   X75/Frame, Send      x75_decode, x75_send_control, x75_transmit_frmr (src/x75/x75_subr.c),
--                        x75_send_iframe, x75_transmit_buffer (src/x75/x75_out.c) and the calls of
--                        the callbacks (src/x75/x75_iface.c)
--   X75/Queues           x75_clear_queues, x75_frames_acked, x75_requeue_frames, x75_validate_nr
--                        (src/x75/x75_subr.c)
--   X75/Kick             x75_kick and the replies (src/x75/x75_out.c)
--   X75/In, Transfer     src/x75/x75_in.c: states 0, 1, 2 and 4; state 3 and x75_data_input
--   X75/Iface            the requests of src/x75/x75_iface.c
--   X75/Life             what happens to a link, one call after the other; X75/Life/Service is the
--                        service that it keeps to, an abstract machine of states and indications
--   SoftUart             src/v110/soft_uart.c and src/v110/soft_uart.h
--   Message              the parsers of src/yate_message.c; Message/Line is its line buffer
--   Ppp                  src/ppp/pppd.c and src/ppp/pppd.h, less the start of the process; Ppp/Table
--                        is its table
--   Yate                 src/yate.c; Yate/Table is the table of src/a2s.h, and Yate/Float has the
--                        conversions to and from floating point, with `float` as a record
--   Line                 the two loops over HDLC frames that src/yate_x75.c, src/yate_hdlc_ppp.c and
--                        src/file_hdlc_decoder.c have alike, with the codec as a record and what is asked of
--                        it as two more; Line/Concrete is a codec that fulfils them
--   Gateway/Ppp          src/yate_hdlc_ppp.c, on Ppp and Line
--   Gateway/X75          src/yate_x75.c, on X75 and Line, with the constants of src/config.h
--   Gateway/Decoder      src/file_hdlc_decoder.c
--   Gateway/Tty          src/yate_tty.c, on Yate
--   V110                 the RLP frames of src/yate_v110.c
--   Fax                  src/fax_decode.c: Fax/Types has the globals and what it uses of spandsp as a
--                        record, Fax/Dcs what a DCS frame says
--   FaxTest              the callback of src/fax_test.c that finds the blocks for Fax in V.110 frames
-- The definitions have the names of the C functions less `x75_`, `osmo_soft_uart_`,
-- `yate_message_`, `pppd_`, `yate_codec_` and `osmo_v110_`; a function that changes the link is one
-- from X75Cb to X75Cb, and one that may send I frames has a result of type Outcome, as `x75_kick` may end the program or copy a null
-- pointer. The calls of callbacks are appended to the field `events`. A switch over the type of a
-- frame or over the state is a function by clauses whose name ends in `dispatch`. The other files
-- under these modules hold properties, and Examples the concrete states. The programs of
-- Gateway are functions from what `osmo_select_main` hands to them, one event after the other, on a
-- record of their globals; the callbacks of the link are made behind the call that leads to them, as
-- none of them calls the link or changes it.
--
-- Loops. `x75_frames_acked`, `x75_validate_nr` and `x75_kick` go round the sequence numbers, so
-- their fuel is the modulus; `x75_requeue_frames` takes a frame off a queue in each round, and its
-- fuel is the length of that queue and one. The loop of `yate_message_parse_parameters` takes a
-- colon off the memory in each round, and its fuel is the length of that memory and one.
-- The loop of `pppd_input_cb` gets on by an octet in each round but the first, and its fuel is the
-- length of the read and one. The loop over the samples that come has eight rounds for each and
-- eight more, as a call of the decoder takes at least a bit of those unread, of which it holds back
-- no more than an octet; the loop over the samples that go has one round for each, as a call of the
-- encoder writes at least one. All other loops are by structural recursion.
--
-- Not modelled. Memory: freed buffers are not read again, a buffer has the head and tail room for
-- what is written, there is memory for the buffers of the programs, and a frame that the upper layer
-- has been given is its own. Debug messages and the packet capture of src/gsmtap.c. Callbacks that
-- call back into the link. What `write` returns is a parameter in src/yate_x75.c and src/ppp/pppd.c; in
-- src/yate_tty.c it takes all that it is given. Numbers in `unsigned short` and `unsigned char` are cut
-- to size where the code may exceed them. Of the programs: their start, the processes they start, and
-- what only moves octets between file descriptors (src/telnet.c, src/ppp/pty.c, src/ttytdd,
-- src/test.c, the main of src/fax_test.c). The arithmetic of `float`, which is a parameter. What lies
-- behind the line buffer of src/yate_message.c, and the failure of a read.
pub mod Base
pub mod Osmo
pub mod X75
pub mod SoftUart
pub mod Message
pub mod Ppp
pub mod Yate
pub mod Line
pub mod Gateway
pub mod Fax
pub mod FaxTest
pub mod V110
