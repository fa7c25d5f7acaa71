-- ===== src/Packet/Numbers.antt =====
-- common/packet.h: the packet types, `packet_t`.
use antnet.Common.{ℕ}

abbrev pub pt_tcp : ℕ
pt_tcp = 0

abbrev pub pt_udp : ℕ
pt_udp = 1

abbrev pub pt_cbr : ℕ
pt_cbr = 2

abbrev pub pt_audio : ℕ
pt_audio = 3

abbrev pub pt_video : ℕ
pt_video = 4

abbrev pub pt_ack : ℕ
pt_ack = 5

abbrev pub pt_start : ℕ
pt_start = 6

abbrev pub pt_stop : ℕ
pt_stop = 7

abbrev pub pt_prune : ℕ
pt_prune = 8

abbrev pub pt_graft : ℕ
pt_graft = 9

abbrev pub pt_graftack : ℕ
pt_graftack = 10

abbrev pub pt_join : ℕ
pt_join = 11

abbrev pub pt_assert : ℕ
pt_assert = 12

abbrev pub pt_message : ℕ
pt_message = 13

abbrev pub pt_rtcp : ℕ
pt_rtcp = 14

abbrev pub pt_rtp : ℕ
pt_rtp = 15

abbrev pub pt_rtproto_dv : ℕ
pt_rtproto_dv = 16

abbrev pub pt_ctrmcast_encap : ℕ
pt_ctrmcast_encap = 17

abbrev pub pt_ctrmcast_decap : ℕ
pt_ctrmcast_decap = 18

abbrev pub pt_srm : ℕ
pt_srm = 19

abbrev pub pt_request : ℕ
pt_request = 20

abbrev pub pt_accept : ℕ
pt_accept = 21

abbrev pub pt_confirm : ℕ
pt_confirm = 22

abbrev pub pt_teardown : ℕ
pt_teardown = 23

abbrev pub pt_live : ℕ
pt_live = 24

abbrev pub pt_reject : ℕ
pt_reject = 25

abbrev pub pt_telnet : ℕ
pt_telnet = 26

abbrev pub pt_ftp : ℕ
pt_ftp = 27

abbrev pub pt_pareto : ℕ
pt_pareto = 28

abbrev pub pt_exp : ℕ
pt_exp = 29

abbrev pub pt_inval : ℕ
pt_inval = 30

abbrev pub pt_http : ℕ
pt_http = 31

abbrev pub pt_encapsulated : ℕ
pt_encapsulated = 32

abbrev pub pt_mftp : ℕ
pt_mftp = 33

abbrev pub pt_arp : ℕ
pt_arp = 34

abbrev pub pt_mac : ℕ
pt_mac = 35

abbrev pub pt_tora : ℕ
pt_tora = 36

abbrev pub pt_dsr : ℕ
pt_dsr = 37

abbrev pub pt_aodv : ℕ
pt_aodv = 38

abbrev pub pt_imep : ℕ
pt_imep = 39

abbrev pub pt_rap_data : ℕ
pt_rap_data = 40

abbrev pub pt_rap_ack : ℕ
pt_rap_ack = 41

abbrev pub pt_tfrc : ℕ
pt_tfrc = 42

abbrev pub pt_tfrc_ack : ℕ
pt_tfrc_ack = 43

abbrev pub pt_ping : ℕ
pt_ping = 44

abbrev pub pt_pbc : ℕ
pt_pbc = 45

abbrev pub pt_diff : ℕ
pt_diff = 46

abbrev pub pt_rtproto_ls : ℕ
pt_rtproto_ls = 47

abbrev pub pt_ldp : ℕ
pt_ldp = 48

abbrev pub pt_gaf : ℕ
pt_gaf = 49

abbrev pub pt_realaudio : ℕ
pt_realaudio = 50

abbrev pub pt_pushback : ℕ
pt_pushback = 51

abbrev pub pt_pgm : ℕ
pt_pgm = 52

abbrev pub pt_lms : ℕ
pt_lms = 53

abbrev pub pt_lms_setup : ℕ
pt_lms_setup = 54

abbrev pub pt_sctp : ℕ
pt_sctp = 55

abbrev pub pt_sctp_app1 : ℕ
pt_sctp_app1 = 56

abbrev pub pt_smac : ℕ
pt_smac = 57

abbrev pub pt_xcp : ℕ
pt_xcp = 58

abbrev pub pt_hdlc : ℕ
pt_hdlc = 59

abbrev pub pt_bltrace : ℕ
pt_bltrace = 60

abbrev pub pt_aomdv : ℕ
pt_aomdv = 61

abbrev pub pt_ant : ℕ
pt_ant = 62

-- The first value of `PT_NTYPE`, which is a variable.
abbrev pub pt_ntype : ℕ
pt_ntype = 63
