-- ===== src/Protocol.antt =====
-- common/protocol.h: the status codes, the operation codes that the servers read, the access
-- types and the buffer sizes.
use name_file_system_docs.Base.{ℕ}

abbrev pub err_success : ℕ
err_success = 200

abbrev pub err_created : ℕ
err_created = 201

abbrev pub err_bad_request : ℕ
err_bad_request = 400

abbrev pub err_access_denied : ℕ
err_access_denied = 403

abbrev pub err_not_found : ℕ
err_not_found = 404

abbrev pub err_conflict : ℕ
err_conflict = 409

abbrev pub err_locked : ℕ
err_locked = 423

abbrev pub err_index_error : ℕ
err_index_error = 450

abbrev pub err_not_implemented : ℕ
err_not_implemented = 501

abbrev pub err_server_error : ℕ
err_server_error = 500

abbrev pub access_read : ℕ
access_read = 1

abbrev pub access_write : ℕ
access_write = 2

abbrev pub max_filename_len : ℕ
max_filename_len = 256

abbrev pub max_username_len : ℕ
max_username_len = 64

abbrev pub max_content_len : ℕ
max_content_len = 4096

abbrev pub max_path_len : ℕ
max_path_len = 512

abbrev pub err_ss_unavailable : ℕ
err_ss_unavailable = 503

abbrev pub op_create : ℕ
op_create = 10

abbrev pub op_read : ℕ
op_read = 11

abbrev pub op_delete : ℕ
op_delete = 13

abbrev pub op_stream : ℕ
op_stream = 14

abbrev pub op_undo : ℕ
op_undo = 15

abbrev pub op_get_metadata : ℕ
op_get_metadata = 65

abbrev pub op_write_start : ℕ
op_write_start = 70

abbrev pub op_write_update : ℕ
op_write_update = 71

abbrev pub op_write_commit : ℕ
op_write_commit = 72

abbrev pub op_createfolder : ℕ
op_createfolder = 80

abbrev pub op_move : ℕ
op_move = 81

abbrev pub op_viewfolder : ℕ
op_viewfolder = 82

abbrev pub op_checkpoint : ℕ
op_checkpoint = 90

abbrev pub op_viewcheckpoint : ℕ
op_viewcheckpoint = 91

abbrev pub op_revert : ℕ
op_revert = 92

abbrev pub op_listcheckpoints : ℕ
op_listcheckpoints = 93

abbrev pub op_replicate : ℕ
op_replicate = 110

abbrev pub op_search : ℕ
op_search = 112

abbrev pub op_write : ℕ
op_write = 12

abbrev pub op_view : ℕ
op_view = 20

abbrev pub op_info : ℕ
op_info = 21

abbrev pub op_list : ℕ
op_list = 22

abbrev pub op_addaccess : ℕ
op_addaccess = 30

abbrev pub op_remaccess : ℕ
op_remaccess = 31

abbrev pub op_exec : ℕ
op_exec = 40

abbrev pub op_register_ss : ℕ
op_register_ss = 50

abbrev pub op_register_client : ℕ
op_register_client = 51

abbrev pub op_unregister_client : ℕ
op_unregister_client = 52

abbrev pub op_requestaccess : ℕ
op_requestaccess = 100

abbrev pub op_viewrequests : ℕ
op_viewrequests = 101

abbrev pub op_approverequest : ℕ
op_approverequest = 102

abbrev pub op_denyrequest : ℕ
op_denyrequest = 103

abbrev pub op_heartbeat : ℕ
op_heartbeat = 111
